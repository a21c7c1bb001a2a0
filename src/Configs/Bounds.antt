-- ===== src/Configs/Bounds.antt =====
-- What a parsed configuration holds (libcontainer/configs/spec.go).
use Prim.Native.Nat.{max}
use runnc.Base.{
  ℕ, zero, suc, ◌/◌, ◌≡◌, refl, String, ℤ, pos, negsuc, neg, Option, none, some, List, [], ◌∷◌,
  arith, lt_ℤ, str_eq, if◌then◌else◌,
}
use runnc.Go.{ok}
use runnc.Configs.{
  Spec, Config, Linux, Namespace, SpecProcess, parse_spec, parse_some, parse_process, config_of,
  memory_of, memory_limit, netns_loop, netns_path_of,
}

-- The limit in whole megabytes; without a limit, or with a negative one, none.
abbrev pub megabytes : Option ℤ → ℕ
megabytes none = 0
megabytes (some (pos n)) = n / 1048576
megabytes (some (negsuc n)) = 0

floor_negative : (k : ℕ) → (if lt_ℤ (neg k) (pos 512) then pos 512 else neg k) ≡ pos 512
floor_negative zero = refl
floor_negative (suc k) = refl

memory_of-megabytes : (limit : Option ℤ) → memory_of limit ≡ pos (max 512 (megabytes limit))
unfolding memory_of
memory_of-megabytes none = refl
memory_of-megabytes (some (pos n)) = ground arith
memory_of-megabytes (some (negsuc n)) = floor_negative (suc n / 1048576)

-- The path of the last network namespace.
abbrev pub last_network : List Namespace → Option String
last_network [] = none
last_network (n ∷ rest) = elim (last_network rest) [
  | some path ↦ some path
  | none ↦ if str_eq n.kind "network" then some n.path else none
]

abbrev pub or_else_blank : String → Option String → String
or_else_blank found none = found
or_else_blank found (some path) = path

netns_loop-last_network :
    (found : String) (ns : List Namespace)
    → netns_loop found ns ≡ or_else_blank found (last_network ns)
unfolding netns_loop
netns_loop-last_network found [] = refl
netns_loop-last_network found (n ∷ rest) =
    ground (arith, netns_loop-last_network found rest, netns_loop-last_network n.path rest)

abbrev pub namespaces_of : Option Linux → List Namespace
namespaces_of none = []
namespaces_of (some l) = l.namespaces

-- What `ParseSpec` reads of a specification with the process `p`.
pub record IsParsed (s : Spec) (p : SpecProcess) (c : Config) : Type 0 where
  pub has_args : p.args ≡ some c.args
  pub has_env : c.env ≡ p.env
  pub has_cwd : c.cwd ≡ p.cwd
  pub has_root : s.root ≡ some c.rootfs
  pub has_memory : c.memory ≡ pos (max 512 (megabytes (memory_limit s.linux)))
  pub has_netns : c.netns_path ≡ or_else_blank "" (last_network (namespaces_of s.linux))
  pub has_mounts : c.mounts ≡ s.mounts
  pub has_hooks : c.hooks ≡ s.hooks

netns_path_of-last_network :
    (l : Option Linux) → netns_path_of l ≡ or_else_blank "" (last_network (namespaces_of l))
unfolding netns_path_of
netns_path_of-last_network none = refl
netns_path_of-last_network (some l) = netns_loop-last_network "" l.namespaces

parse_process_lem :
    (s : Spec) (p : SpecProcess) (args : Option (List String)) (root : Option String) {c : Config}
    → p.args ≡ args
    → s.root ≡ root
    → parse_process s p p.args ≡ ok c
    → IsParsed s p c
unfolding parse_process
parse_process_lem s p none root ea er h = ground arith
parse_process_lem s p (some args) none ea er h = ground arith
parse_process_lem s p (some args) (some root) ea er h =
    ground (arith, memory_of-megabytes (memory_limit s.linux), netns_path_of-last_network s.linux)

parse_some_lem :
    (s : Spec) (process : Option SpecProcess) {c : Config}
    → parse_some s process ≡ ok c
    → (p : SpecProcess) × (process ≡ some p) × IsParsed s p c
unfolding parse_some
parse_some_lem s none h = ground arith
parse_some_lem s (some p) h = (p, refl, parse_process_lem s p _ _ refl refl h)

-- A configuration that `ParseSpec` gives has the process's arguments, environment and directory, the
-- root, mounts and hooks of the specification, the path of its last network namespace, and as
-- memory its limit in megabytes, or 512 where that is less, negative or missing.
pub parse_spec-IsParsed :
    (s : Spec) {c : Config}
    → parse_spec (some s) ≡ ok c
    → (p : SpecProcess) × (s.process ≡ some p) × IsParsed s p c
unfolding parse_spec
parse_spec-IsParsed s h = parse_some_lem s s.process h

-- `ParseSpec` succeeds for every specification with a process, its arguments and a root.
parse_spec_total :
    (s : Spec) {p : SpecProcess} {args : List String} {root : String}
    → s.process ≡ some p
    → p.args ≡ some args
    → s.root ≡ some root
    → (c : Config) × (parse_spec (some s) ≡ ok c)
unfolding parse_spec
parse_spec_total s {p} {args} {root} ep ea er = (config_of s p args root, ground arith)
