-- ===== src/Libcontainer/Container/Launch.antt =====
-- What `start` of libcontainer/container_nabla.go gives the new process, and what it records.
use mathlib.Core.List.{append_assoc}
use runnc.Base.{
  ℕ, zero, suc, ◌+◌, ◌-◌, ltb, if◌then◌else◌, ◌≡◌, refl, ◌⊎◌, String, ◌<>◌, Option, none, some,
  List, [], ◌∷◌, ◌++◌, length, length-append, itoa, false, arith,
}
use runnc.Go.{ok, GoError, done}
use runnc.Os.{Os, World, Command, socketpair, open_read, write, start_command, start_time, now}
use runnc.Libcontainer.Process.{Process}
use runnc.Libcontainer.State.{created, Container, Codec}
use runnc.Libcontainer.Container.{
  with_state, last_fd, command_template, add_state_dir, init_config, start, save_state,
}

module _ {ℓ} {A : Type ℓ} where
  abbrev get_elem? : List A → ℕ → Option A
  get_elem? [] i = none
  get_elem? (x ∷ xs) zero = some x
  get_elem? (x ∷ xs) (suc i) = get_elem? xs i

  -- What stands after the first so many entries.
  get_elem?-length :
      (xs ys : List A) (a : A) (i : ℕ) → i ≡ length xs → get_elem? (xs ++ (a ∷ ys)) i ≡ some a
  get_elem?-length [] ys a zero h = refl
  get_elem?-length [] ys a (suc i) h = absurd (omega arith)
  get_elem?-length (x ∷ xs) ys a zero h = absurd (omega arith)
  get_elem?-length (x ∷ xs) ys a (suc i) h = get_elem?-length xs ys a i (omega arith)

-- What the child has open under a number: the extra files follow the three standard ones.
abbrev pub child_file : Command → ℕ → Option ℕ
child_file cmd n = if ltb n 3 then none else get_elem? cmd.extra_files (n - 3)

-- The command that `start` runs.
abbrev pub init_command : Container → Process → ℕ → ℕ → Command
init_command c p child_pipe root_dir = add_state_dir (command_template c p child_pipe) root_dir

-- The number under which the new process has its end of the pipe, after the standard files and the
-- extra ones; it has the container's directory under the next.
abbrev pub pipe_number : Process → ℕ
pipe_number p = 3 + length p.extra_files

last_fd-pipe : (p : Process) (a : ℕ) → last_fd (p.extra_files ++ (a ∷ [])) ≡ pipe_number p
unfolding last_fd
last_fd-pipe p a = omega (arith, length-append p.extra_files (a ∷ []))

last_fd-dir :
    (p : Process) (a b : ℕ) → last_fd ((p.extra_files ++ (a ∷ [])) ++ (b ∷ [])) ≡ pipe_number p + 1
unfolding last_fd
last_fd-dir p a b = omega (
  arith,
  length-append (p.extra_files ++ (a ∷ [])) (b ∷ []),
  length-append p.extra_files (a ∷ []),
)

-- The environment of the init process is exactly the two variables of libcontainer.
pub init_command_env :
    (c : Container) (p : Process) (child_pipe root_dir : ℕ)
    → (init_command c p child_pipe root_dir).env
      ≡ ("_LIBCONTAINER_INITPIPE=" <> itoa (pipe_number p))
        ∷ ("_LIBCONTAINER_STATEDIR=" <> itoa (pipe_number p + 1))
        ∷ []
unfolding add_state_dir command_template
init_command_env c p child_pipe root_dir =
    rw (last_fd-pipe p child_pipe, last_fd-dir p child_pipe root_dir) refl

-- The numbers in them are the ones under which it has its end of the pipe and the container's
-- directory open.
pub init_command_files :
    (c : Container) (p : Process) (child_pipe root_dir : ℕ)
    → let cmd = init_command c p child_pipe root_dir in
      (child_file cmd (pipe_number p) ≡ some child_pipe)
      × (child_file cmd (pipe_number p + 1) ≡ some root_dir)
unfolding add_state_dir command_template
init_command_files c p child_pipe root_dir =
    let files = p.extra_files in
    let all = append_assoc files (child_pipe ∷ []) (root_dir ∷ []) in
    let far : ltb (pipe_number p) 3 ≡ false = ground arith in
    let further : ltb (pipe_number p + 1) 3 ≡ false = ground arith in
    (
      rw (far, all) (get_elem?-length files (root_dir ∷ []) child_pipe _ (omega arith)),
      rw further (
          get_elem?-length (files ++ (child_pipe ∷ [])) [] root_dir _
            (omega (arith, length-append files (child_pipe ∷ [])))),
    )

module _ ⦃os : Os⦄ ⦃codec : Codec⦄ where
  -- Where each call up to the start time of the process succeeds, `start` reports no error, and
  -- records pid, times and the status created, whether or not the state could be saved.
  start_lem :
      (c : Container) (p : Process) (w : World) {child parent dir pid time : ℕ} {t : String}
      {s₁ s₂ s₃ s₄ s₅ s₆ : os.Sys}
      → let message = codec.encode_init (init_config c) in
        os.answer socketpair w.sys ≡ (done (child, parent), s₁)
        → os.answer (open_read c.root) s₁ ≡ (done dir, s₂)
        → os.answer (write parent message) s₂ ≡ (done tt, s₃)
        → os.answer (start_command (record (init_command c p child dir) { input = message })) s₃
          ≡ (done pid, s₄)
        → os.answer now s₄ ≡ (time, s₅)
        → os.answer (start_time pid) s₅ ≡ (done t, s₆)
        → (start c p w).0
          ≡ ok (
            with_state c (record c.state {
              init_process_pid = pid;
              init_process_start_time = t;
              created_at = time;
              status = created;
            }),
            record p { ops = some pid },
            none,
          )
  unfolding start save_state
  start_lem c p w h₁ h₂ h₃ h₄ h₅ h₆ = ground arith

  -- An error of `start` comes with the container as it was, or with one that has the status
  -- created: then the process was started, and its start time could not be read.
  start_error :
      (c : Container) (p : Process) (w : World) {d : Container} {q : Process} {e : GoError}
      → (start c p w).0 ≡ ok (d, q, some e)
      → (d ≡ c) ⊎ ((d.state.status ≡ created) × (q.ops ≡ some d.state.init_process_pid))
  unfolding start save_state
  start_error c p w h = ground arith
