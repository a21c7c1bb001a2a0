-- ===== src/Configs.antt =====
-- libcontainer/configs: the configuration of a container, and its reading from an OCI
-- specification (`ParseSpec`). The types of runtime-spec/specs-go are given as far as they are read.
pub mod Bounds
use runnc.Base.{
  ℕ, ◌*◌, String, ◌<>◌, ℤ, pos, div_ℤ, lt_ℤ, Bool, Option, none, some, List, [], ◌∷◌, map, str_eq,
  if◌then◌else◌,
}
use runnc.Go.{Outcome, ok, err, text}

-- `specs.Hook` and `specs.Hooks`, `specs.Mount`
pub record Hook : Type 0 where
  pub path : String
  pub args : List String
  pub env : List String
  pub timeout : Option ℤ

pub record Hooks : Type 0 where
  pub prestart : List Hook
  pub poststart : List Hook
  pub poststop : List Hook

pub record Mount : Type 0 where
  pub destination : String
  pub kind : String
  pub source : String
  pub options : List String

-- `specs.Process`, `specs.Root`, `specs.Linux` and `specs.Spec`. A nil slice of arguments is `none`.
pub record SpecProcess : Type 0 where
  pub terminal : Bool
  pub uid : ℕ
  pub gid : ℕ
  pub additional_gids : List ℕ
  pub args : Option (List String)
  pub env : List String
  pub cwd : String
  pub no_new_privileges : Bool
  pub apparmor_profile : String
  pub oom_score_adj : Option ℤ
  pub selinux_label : String

pub record Namespace : Type 0 where
  pub kind : String
  pub path : String

pub record Memory : Type 0 where
  pub limit : Option ℤ

pub record Resources : Type 0 where
  pub memory : Option Memory

pub record Linux : Type 0 where
  pub namespaces : List Namespace
  pub resources : Option Resources

-- The order of `annotations` is that in which Go ranges over the map, which may be any.
pub record Spec : Type 0 where
  pub version : String
  pub process : Option SpecProcess
  pub root : Option String
  pub mounts : List Mount
  pub hooks : Option Hooks
  pub annotations : List (String × String)
  pub linux : Option Linux

-- `configs.Config`
pub record Config : Type 0 where
  pub args : List String
  pub rootfs : String
  pub env : List String
  pub cwd : String
  pub version : String
  pub labels : List String
  pub netns_path : String
  pub hooks : Option Hooks
  pub memory : ℤ
  pub mounts : List Mount

-- `Config.HostUID` and `Config.HostGID`
abbrev pub host_uid : Config → ℕ
host_uid c = 0

abbrev pub host_gid : Config → ℕ
host_gid c = 0

-- `ContainerMemoryMinimum`, in megabytes.
abbrev pub container_memory_minimum : ℕ
container_memory_minimum = 512

abbrev megabyte : ℕ
megabyte = 1048576

labels_of : List (String × String) → List String
labels_of [] = []
labels_of ((k, v) ∷ rest) = (k <> ("=" <> v)) ∷ labels_of rest

-- The loop over the namespaces: a later network namespace overwrites an earlier one.
netns_loop : String → List Namespace → String
netns_loop found [] = found
netns_loop found (n ∷ rest) = netns_loop (if str_eq n.kind "network" then n.path else found) rest

netns_path_of : Option Linux → String
unfolding netns_loop
netns_path_of none = ""
netns_path_of (some l) = netns_loop "" l.namespaces

-- `s.Linux.Resources.Memory.Limit`, where none of the pointers is nil.
limit_of_memory : Option Memory → Option ℤ
limit_of_memory none = none
limit_of_memory (some m) = m.limit

limit_of_resources : Option Resources → Option ℤ
unfolding limit_of_memory
limit_of_resources none = none
limit_of_resources (some r) = limit_of_memory r.memory

pub memory_limit : Option Linux → Option ℤ
unfolding limit_of_resources
memory_limit none = none
memory_limit (some l) = limit_of_resources l.resources

requested_memory : Option ℤ → ℤ
requested_memory none = pos 0
requested_memory (some bytes) = div_ℤ bytes megabyte

memory_of : Option ℤ → ℤ
unfolding requested_memory
memory_of limit =
    let memory = requested_memory limit in
    if lt_ℤ memory (pos container_memory_minimum) then pos container_memory_minimum else memory

config_of : Spec → SpecProcess → List String → String → Config
unfolding labels_of netns_path_of memory_limit memory_of
config_of s p args root = record {
  args = args;
  rootfs = root;
  env = p.env;
  cwd = p.cwd;
  version = s.version;
  labels = labels_of s.annotations;
  netns_path = netns_path_of s.linux;
  hooks = s.hooks;
  memory = memory_of (memory_limit s.linux);
  mounts = s.mounts;
}

parse_root : Spec → SpecProcess → List String → Option String → Outcome Config
unfolding config_of
parse_root s p args none = err (text "Root is nil")
parse_root s p args (some root) = ok (config_of s p args root)

parse_process : Spec → SpecProcess → Option (List String) → Outcome Config
unfolding parse_root
parse_process s p none = err (text "Process Args is nil")
parse_process s p (some args) = parse_root s p args s.root

parse_some : Spec → Option SpecProcess → Outcome Config
unfolding parse_process
parse_some s none = err (text "Process Args is nil")
parse_some s (some p) = parse_process s p p.args

unfoldable pub parse_spec : Option Spec → Outcome Config
unfolding parse_some
parse_spec none = err (text "Spec is nil")
parse_spec (some s) = parse_some s s.process
