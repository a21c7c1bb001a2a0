-- ===== src/Os/Calls.antt =====
-- The system calls and the library functions that ask the system, with what they answer.
use runnc.Base.{ℕ, String, ℤ, Option, List, Bool}
use runnc.Go.{Reply}

-- `os.FileInfo`
pub record FileInfo : Type 0 where
  pub is_dir : Bool
  pub mode : ℕ

-- `netlink.LinkAttrs`, and an IPv4 address with its mask, in bytes.
pub record Link : Type 0 where
  pub index : ℕ
  pub name : String
  pub hardware_addr : String
  pub tx_qlen : ℤ

pub record Addr : Type 0 where
  pub ip : List ℕ
  pub mask : List ℕ

-- A command to start: its path, its arguments and environment, its directory, its standard
-- descriptors where they are given, whether it leads a new process group, its extra files and what
-- it reads.
pub record Command : Type 0 where
  pub path : String
  pub args : List String
  pub env : List String
  pub dir : String
  pub stdin : Option ℕ
  pub stdout : Option ℕ
  pub stderr : Option ℕ
  pub new_group : Bool
  pub extra_files : List ℕ
  pub input : String

-- The ways to make a link: a bridge, a tap device, a macvtap over a parent.
pub data LinkKind : Type 0 where
  bridge tuntap : LinkKind
  macvtap : ℕ → ℕ → ℤ → LinkKind

-- How a wait with a time limit ends, if not with the error of the command.
pub data WaitResult : Type 0 where
  finished timed_out : WaitResult

-- The forms of an answer.
pub data Ret : Type 0 where
  unit num str strs info entries link addrs gateways pair opened waited wait_status : Ret
  total_num total_str total_strs total_unit : Ret

-- Calls of the first row can fail; those whose form is `total` cannot.
abbrev pub Answer : Ret → Type 0
Answer unit = Reply (Unit {0})
Answer num = Reply ℕ
Answer str = Reply String
Answer strs = Reply (List String)
Answer info = Reply FileInfo
Answer entries = Reply (List (String × FileInfo))
Answer link = Reply Link
Answer addrs = Reply (List Addr)
Answer gateways = Reply (List (List ℕ))
Answer pair = Reply (ℕ × ℕ)
Answer opened = Reply (ℕ × String)
Answer waited = Reply WaitResult
Answer wait_status = Reply (ℤ × ℤ)
Answer total_num = ℕ
Answer total_str = String
Answer total_strs = List String
Answer total_unit = Unit {0}

pub data Call : Ret → Type 0 where
  -- files
  mkdir_all : String → ℕ → Call unit
  mkdir : String → ℕ → Call unit
  stat : String → Call info
  stat_rdev : String → Call pair
  chown : String → ℕ → ℕ → Call unit
  chmod : String → ℕ → Call unit
  fchown : ℕ → ℕ → ℕ → Call unit
  umask : ℕ → Call total_num
  mkfifo : String → ℕ → Call unit
  mknod : String → ℕ → ℕ → ℕ → Call unit
  remove : String → Call unit
  remove_all : String → Call unit
  rename : String → String → Call unit
  read_dir : String → Call entries
  open_read : String → Call num
  open_at : ℕ → String → Call num
  create : String → Call num
  create_exclusive : String → Call num
  open_truncate : String → Call num
  read_all : ℕ → Call str
  read_file : String → Call str
  write_file : String → String → Call unit
  write : ℕ → String → Call unit
  copy : ℕ → ℕ → Call unit
  close : ℕ → Call unit
  pipe : Call pair
  socketpair : Call pair
  temp_file : Call opened
  abs : String → Call str
  chdir : String → Call unit
  -- processes
  getenv : String → Call total_str
  environ : Call total_strs
  clearenv : Call total_unit
  geteuid : Call total_num
  getpid : Call total_num
  start_command : Command → Call num
  wait_command : ℕ → Call unit
  wait_timeout : ℕ → ℤ → Call waited
  run_command : List String → Call unit
  look_path : String → Call str
  execve : String → List String → List String → Call unit
  kill : ℤ → ℕ → Call unit
  signal_process : ℕ → ℕ → Call unit
  wait4 : Call wait_status
  start_time : ℕ → Call str
  now : Call total_num
  sleep : ℕ → Call total_unit
  set_subreaper : Call unit
  -- terminals: the master of a new pseudoterminal, the number of its slave, its unlocking; the raw
  -- mode of the standard input and its end; the size of the window.
  open_ptmx : Call num
  pts_number : ℕ → Call num
  unlock_pts : ℕ → Call unit
  set_raw_terminal : Call num
  restore_terminal : ℕ → Call unit
  resize_console : ℕ → Call unit
  -- a descriptor's end and text, a file opened with flags, its number, its label, its mount (source,
  -- target, type, flags)
  read : ℕ → Call str
  open_flags : String → ℕ → Call num
  dup3 : ℕ → ℕ → ℕ → Call unit
  set_file_label : String → String → Call unit
  mount : String → String → String → ℕ → Call unit
  -- a file to which a log is appended, a line for the standard output or error, and one for the log
  open_append : String → Call num
  print : ℕ → String → Call total_unit
  log_line : String → Call total_unit
  -- links, addresses, routes and network namespaces
  netlink_handle : Call unit
  link_by_name : String → Call link
  link_add : String → LinkKind → Call num
  link_del : String → Call unit
  link_set_up : String → Call unit
  addr_list : String → Call addrs
  route_list : String → Call gateways
  addr_add : String → Addr → Call unit
  addr_del : String → Addr → Call unit
  set_hardware_addr : String → String → Call unit
  set_master : String → String → Call unit
  random : ℕ → Call total_num
  netns_from_path : String → Call num
  netns_new : Call num
  netns_set : ℕ → Call unit

-- The points at which the program hands over to a low level handler (llif/llif.go).
pub data HandlerCall : Type 0 where
  fs_create network_create exec_create : HandlerCall
  fs_run network_run exec_run : HandlerCall
  fs_destroy network_destroy exec_destroy : HandlerCall

pub data Event : Type 0 where
  called : {r : Ret} → Call r → Event
  handed : HandlerCall → Event

-- A system: its state, and how it answers each call.
pub record Os : Type 1 where
  pub Sys : Type 0
  pub answer : {r : Ret} → Call r → Sys → Answer r × Sys
