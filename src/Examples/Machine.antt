-- ===== src/Examples/Machine.antt =====
-- A machine for the examples: files with their contents, one process, and a few switches.
use runnc.Base.{
  ℤ, ℕ, zero, suc, ◌≡◌, ◌≢◌, String, pos, Option, none, some, List, [], ◌∷◌, Bool, true, false,
  str_eq, str_eq_iff, if◌then◌else◌, arith, refl,
}
use runnc.Go.{Reply, done, failed, errno, enoent, text, Errno}
use runnc.Os.{
  Os, World, Call, Ret, Answer, FileInfo, Link, Addr, finished, unit, num, str, strs, info, entries,
  link, addrs, gateways, pair, opened, waited, wait_status, total_num, total_str, total_strs,
  total_unit, close, create, write, open_read, read_all, stat, signal_process, kill, pipe, wait4,
  geteuid, getenv,
}
use runnc.Libcontainer.Factory.Load.{IsStorage}
use runnc.Libcontainer.Container.Persistence.{IsKept}

-- `current` is the file opened last; `alive` whether the process answers, `pipes` how many pipes
-- can still be made, `zombies` the exits that wait.
pub record Machine : Type 0 where
  pub files : List (String × String)
  pub current : String
  pub alive : Bool
  pub pipes : ℕ
  pub zombies : List (ℤ × ℤ)

abbrev pub content_of : String → List (String × String) → Option String
content_of path [] = none
content_of path ((p, s) ∷ files) = if str_eq p path then some s else content_of path files

abbrev missing : {A : Type 0} → Reply A
missing = failed (errno enoent)

abbrev pub eth0 : Link
eth0 = record { index = 2; name = "eth0"; hardware_addr = "02:42:ac:11:00:02"; tx_qlen = pos 0 }

abbrev pub eth0_addr : Addr
eth0_addr = record { ip = 172 ∷ 17 ∷ 0 ∷ 2 ∷ []; mask = 255 ∷ 255 ∷ 0 ∷ 0 ∷ [] }

-- The answer to a call that the machine knows nothing about.
abbrev usual : (r : Ret) → Answer r
usual unit = done tt
usual num = done 3
usual str = done "/"
usual strs = done []
usual info = missing
usual entries = done []
usual link = done eth0
usual addrs = done (eth0_addr ∷ [])
usual gateways = done ((172 ∷ 17 ∷ 0 ∷ 1 ∷ []) ∷ [])
usual pair = done (10, 200)
usual opened = done (3, "/tmp/x")
usual waited = done finished
usual wait_status = failed (errno Errno.echild)
usual total_num = 18
usual total_str = "3"
usual total_strs = []
usual total_unit = tt

abbrev open_file : String → Option String → Machine → Reply ℕ × Machine
open_file path none m = (missing, m)
open_file path (some s) m = (done 3, record m { current = path })

abbrev of_content : Option String → Reply String
of_content none = missing
of_content (some s) = done s

abbrev file_info : Option String → Reply FileInfo
file_info none = missing
file_info (some s) = done (record { is_dir = false; mode = 420 })

abbrev if_alive : Bool → Reply (Unit {0})
if_alive true = done tt
if_alive false = failed (text "no such process")

abbrev take_pipe : ℕ → Machine → Reply (ℕ × ℕ) × Machine
take_pipe zero m = (failed (text "too many open files"), m)
take_pipe (suc n) m = (done (5, 6), record m { pipes = n })

abbrev take_zombie : List (ℤ × ℤ) → Machine → Reply (ℤ × ℤ) × Machine
take_zombie [] m = (failed (errno Errno.echild), m)
take_zombie (z ∷ zombies) m = (done z, record m { zombies = zombies })

abbrev pub answer : {r : Ret} → Call r → Machine → Answer r × Machine
answer (create path) m = (done 3, record m { current = path })
answer (write f s) m = (done tt, record m { files = (m.current, s) ∷ m.files })
answer (open_read path) m = open_file path (content_of path m.files) m
answer (read_all f) m = (of_content (content_of m.current m.files), m)
answer (stat path) m = (file_info (content_of path m.files), m)
answer (signal_process pid sig) m = (if_alive m.alive, m)
answer (kill pid sig) m = (if_alive m.alive, m)
answer pipe m = take_pipe m.pipes m
answer geteuid m = (0, m)
answer (getenv name) m = (if str_eq name "NOTIFY_SOCKET" then "" else "3", m)
answer wait4 m = take_zombie m.zombies m
answer {r = r} c m = (usual r, m)

instance abbrev pub machine : Os
machine = record { Sys = Machine; answer = answer }

-- A machine with these files, whose process is alive or not.
abbrev pub world_of : List (String × String) → Bool → World ⦃os = machine⦄
world_of files alive = record {
  sys = record { files = files; current = ""; alive = alive; pipes = 2; zombies = [] };
  trace = [];
}

abbrev pub held : String → Machine → Option String
held path m = content_of path m.files

pub create-write :
    (path s : String) (t u v : Machine) (f : ℕ)
    → answer (create path) t ≡ (done f, u)
    → answer (write f s) u ≡ (done tt, v)
    → held path (answer (close f) v).1 ≡ some s
create-write path s t u v f h k = ground (arith, str_eq_iff path path)

pub open-read :
    (path s : String) (t : Machine)
    → held path t ≡ some s
    → (f : ℕ) × (u v : Machine) × (answer (open_read path) t ≡ (done f, u))
      × (answer (read_all f) u ≡ (done s, v))
open-read path s t h =
    (3, record t { current = path }, record t { current = path }, ground arith, ground arith)

-- What is written to the machine's files is read from them later.
unfoldable pub machine_storage : IsStorage machine
machine_storage = record { content = held; create_write = create-write; open_succeeds = open-read }

pub machine-IsKept : IsKept machine machine_storage
unfolding machine_storage
machine-IsKept = record { close_keeps = λ path f s. refl; remove_keeps = λ path other s d. refl }

-- Texts that the test tells apart are different.
pub differ : (s t : String) → str_eq s t ≡ false → s ≢ t
differ s t h e = ground (arith, (str_eq_iff s t).1 e)
