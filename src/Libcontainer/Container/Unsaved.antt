-- ===== src/Libcontainer/Container/Unsaved.antt =====
-- What remains of a container whose state could not be written (saveState of
-- libcontainer/container_nabla.go): the file is truncated before it is written, and `start` drops
-- the error.
use mathlib.Core.Path.{subst}
use runnc.Base.{ℕ, ◌≡◌, ◌≢◌, ap, ◌∙◌, String, str_eq_iff, some, none, ◌∷◌, join, arith}
use runnc.Go.{ok, err, GoError, done, failed, system_error}
use runnc.Os.{
  Os, World, called, close, open_read, write, socketpair, start_command, start_time, now,
}
use runnc.Libcontainer.Errors.{new_generic_error}
use runnc.Libcontainer.Process.{Process}
use runnc.Libcontainer.State.{created, Container, Codec, state_filename}
use runnc.Libcontainer.Container.{with_state, init_config, start, save_state}
use runnc.Libcontainer.Container.Launch.{init_command}
use runnc.Libcontainer.Container.Persistence.{IsKept}
use runnc.Libcontainer.Factory.{load}
use runnc.Libcontainer.Factory.Load.{IsStorage}

module _ ⦃os : Os⦄ ⦃codec : Codec⦄ (storage : IsStorage os) (root : String) where
  -- The files hold for this container a text that is no state.
  pub record IsTorn (c : Container) (e : GoError) (s : os.Sys) : Type 0 where
    pub text : String
    pub held : storage.content (join c.root state_filename) s ≡ some text
    pub undecodable : codec.decode_state text ≡ failed e

  -- A state file that does not decode is an error of the system, not a missing container.
  pub load_torn :
      (c : Container) (w : World) {e : GoError}
      → root ≢ ""
      → c.root ≡ join root c.id
      → IsTorn c e w.sys
      → (load root c.id w).0 ≡ err (new_generic_error e system_error)
  unfolding load
  load_torn c w {e} r at torn =
      let (f, u, v, opened, read) = storage.open_succeeds _ _ w.sys torn.held in
      let there : os.answer (open_read (join (join root c.id) state_filename)) w.sys ≡ (done f, u) =
        subst (λ d. os.answer (open_read (join d state_filename)) w.sys ≡ (done f, u)) at opened in
      let bad = torn.undecodable in ground (arith, str_eq_iff root "")

  module _ (kept : IsKept os storage) where
    -- Where each call of `start` up to the start time succeeds, on a root that is given, closing a file
    -- keeps what files hold, and the saving of the state fails and leaves a text that is no state:
    -- `start` reports success, and a later run that finds the files so does not find the container
    -- whose process it has started, with an error that is not the one for a missing container.
    pub start_unsaved :
        (c : Container) (p : Process) (w : World) {child parent dir pid time : ℕ} {t : String}
        {s₁ s₂ s₃ s₄ s₅ s₆ : os.Sys} {x e : GoError}
        → let message = codec.encode_init (init_config c) in
          let command = record (init_command c p child dir) { input = message } in
          let d = with_state c (record c.state {
            init_process_pid = pid;
            init_process_start_time = t;
            created_at = time;
            status = created;
          }) in
          let v : World = record {
            sys = s₆;
            trace =
                called (start_time pid)
                ∷ called now
                ∷ called (start_command command)
                ∷ called (write parent message)
                ∷ called (open_read c.root)
                ∷ called socketpair
                ∷ w.trace;
          } in
          root ≢ ""
          → c.root ≡ join root c.id
          → os.answer socketpair w.sys ≡ (done (child, parent), s₁)
          → os.answer (open_read c.root) s₁ ≡ (done dir, s₂)
          → os.answer (write parent message) s₂ ≡ (done tt, s₃)
          → os.answer (start_command command) s₃ ≡ (done pid, s₄)
          → os.answer now s₄ ≡ (time, s₅)
          → os.answer (start_time pid) s₅ ≡ (done t, s₆)
          → (save_state d v).0 ≡ err x
          → IsTorn c e (save_state d v).1.sys
          → ((start c p w).0 ≡ ok (d, record p { ops = some pid }, none))
            × ((load root c.id (start c p w).1).0 ≡ err (new_generic_error e system_error))
    unfolding start
    start_unsaved c p w {child} {parent} {dir} {pid} {time} {t} {s₆ = s₆} r at h₁ h₂ h₃ h₄ h₅ h₆
          unsaved torn =
        let message = codec.encode_init (init_config c) in
        let command = record (init_command c p child dir) { input = message } in
        let d = with_state c (record c.state {
          init_process_pid = pid;
          init_process_start_time = t;
          created_at = time;
          status = created;
        }) in
        let v : World = record {
          sys = s₆;
          trace =
              called (start_time pid)
              ∷ called now
              ∷ called (start_command command)
              ∷ called (write parent message)
              ∷ called (open_read c.root)
              ∷ called socketpair
              ∷ w.trace;
        } in
        let u = (save_state d v).1.sys in
        let path = join c.root state_filename in
        let last : (start c p w).1.sys ≡ (os.answer (close parent) u).1 = ground arith in
        (
          ground arith,
          load_torn c (start c p w).1 r at (record {
            text = torn.text;
            held = ap (storage.content path) last ∙ kept.close_keeps path parent u ∙ torn.held;
            undecodable = torn.undecodable;
          }),
        )
