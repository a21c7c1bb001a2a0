-- ===== src/Libcontainer/Process.antt =====
-- libcontainer/process.go, libcontainer/process_nabla.go and `nablaProcess` of container_nabla.go.
pub mod Pipes
use runnc.Base.{
  ℕ, String, ℤ, pos, negsuc, Option, none, some, List, [], ◌∷◌, ◌++◌, Bool, str_eq, if◌then◌else◌,
}
use runnc.Go.{Reply, done, failed, GoError, text, Outcome, ok, err}
use runnc.Os.{
  Os, World, M, ask, must, attempt, pure, raise, ◌>>=◌, ◌>>◌, check, pipe, fchown, close,
  wait_command, kill,
}

-- `Process`. Files are descriptors. `ops` is the pid of the started command, if one is started.
pub record Process : Type 0 where
  pub args : List String
  pub env : List String
  pub user : String
  pub additional_groups : List String
  pub cwd : String
  pub stdin : Option ℕ
  pub stdout : Option ℕ
  pub stderr : Option ℕ
  pub extra_files : List ℕ
  pub console_path : String
  pub apparmor_profile : String
  pub label : String
  pub no_new_privileges : Bool
  pub ops : Option ℕ
  pub oom_score_adj : Option ℤ

-- `IO`: our ends of the pipes.
pub record Io : Type 0 where
  pub in_end : ℕ
  pub out_end : ℕ
  pub err_end : ℕ

-- `ConsoleFromPath`
unfoldable pub console_from_path : Process → String → Outcome Process
console_from_path p path =
    if str_eq p.console_path ""
    then ok (record p { console_path = path })
    else err (text "console path already exists for process")

-- `Pid`
abbrev pub pid_of : Process → Outcome ℕ
pid_of p = elim p.ops [ none ↦ err (text "invalid process") | some pid ↦ ok pid ]

module _ ⦃os : Os⦄ where
  -- `Wait` and `Signal`
  unfoldable pub wait : Process → M (Unit {0})
  wait p = elim p.ops [
    | none ↦ raise (text "invalid process")
    | some pid ↦ must (ask (wait_command pid))
  ]

  unfoldable pub signal_process : Process → ℕ → M (Unit {0})
  signal_process p sig = elim p.ops [
    | none ↦ raise (text "invalid process")
    | some pid ↦ must (ask (kill (pos pid) sig))
  ]

  close_all : List ℕ → M (Unit {0})
  close_all [] = pure tt
  close_all (fd ∷ fds) = do ask (close fd); close_all fds

  -- The deferred clean-up of `InitializeIO`: on an error every descriptor made so far is closed.
  undo : {A : Type 0} → List ℕ → GoError → M A
  unfolding close_all
  undo fds e = do close_all fds; raise e

  or_undo : {A B : Type 0} → List ℕ → Reply A → (A → M B) → M B
  unfolding undo
  or_undo fds (done a) k = k a
  or_undo fds (failed e) k = undo fds e

  fchown_all : ℕ → ℕ → List ℕ → M (Unit {0})
  fchown_all uid gid [] = pure tt
  fchown_all uid gid (fd ∷ fds) = do must (ask (fchown fd uid gid)); fchown_all uid gid fds

  -- `InitializeIO`
  unfoldable pub initialize_io : Process → ℕ → ℕ → M (Process × Io)
  unfolding or_undo fchown_all
  initialize_io p uid gid = do
    i ← ask pipe
    or_undo [] i λ (r0, w0). do
      o ← ask pipe
      or_undo (r0 ∷ w0 ∷ []) o λ (r1, w1). do
        e ← ask pipe
        or_undo (r0 ∷ w0 ∷ r1 ∷ w1 ∷ []) e λ (r2, w2). do
          owned ← attempt (fchown_all uid gid (r0 ∷ w0 ∷ r1 ∷ w1 ∷ r2 ∷ w2 ∷ []))
          or_undo (r0 ∷ w0 ∷ r1 ∷ w1 ∷ r2 ∷ w2 ∷ []) owned λ _. pure (
            record p { stdin = some r0; stdout = some w1; stderr = some w2 },
            record { in_end = w0; out_end = r1; err_end = r2 },
          )
