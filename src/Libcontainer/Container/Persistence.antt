-- ===== src/Libcontainer/Container/Persistence.antt =====
-- What the next run of the program finds of a container after `start` or `exec`
-- (libcontainer/container_nabla.go): the state file is the only link between the runs.
use runnc.Base.{ℕ, ◌≡◌, ◌≢◌, ap, ◌∙◌, String, none, some, ◌∷◌, str_eq, false, join, arith}
use runnc.Go.{ok, done}
use runnc.Os.{
  Os, World, called, close, remove, open_read, read_all, write, socketpair, start_command,
  start_time, now,
}
use runnc.Libcontainer.Process.{Process}
use runnc.Libcontainer.State.{created, Container, Codec, exec_fifo_filename, state_filename}
use runnc.Libcontainer.Container.{with_state, init_config, start, exec, save_state}
use runnc.Libcontainer.Container.Lifecycle.{as_running}
use runnc.Libcontainer.Container.Launch.{init_command}
use runnc.Libcontainer.Factory.{load}
use runnc.Libcontainer.Factory.Load.{
  IsStorage, IsFaithful, persistent, load-stored, save_state-content,
}

-- Closing a file, and removing another one, keep what a file holds.
pub record IsKept (os : Os) (storage : IsStorage os) : Type 0 where
  pub close_keeps :
      (path : String) (f : ℕ) (s : os.Sys)
      → storage.content path (os.answer (close f) s).1 ≡ storage.content path s
  pub remove_keeps :
      (path other : String) (s : os.Sys)
      → path ≢ other
      → storage.content path (os.answer (remove other) s).1 ≡ storage.content path s

-- What a later run loads.
abbrev pub reloaded : Container → Container
reloaded c = record {
  id = c.id;
  root = c.root;
  config = c.state.config;
  state = persistent c.state;
}

module _ ⦃os : Os⦄ ⦃codec : Codec⦄ (storage : IsStorage os) (kept : IsKept os storage)
    (root : String) where
  -- The state file after an `exec` that saves its state.
  pub exec-content :
      (c : Container) (w : World) {f : ℕ} {content : String} {s t : os.Sys}
      → let fifo = join c.root exec_fifo_filename in
        let path = join c.root state_filename in
        let d = as_running c in
        let v : World = record {
          sys = t;
          trace = called (read_all f) ∷ called (open_read fifo) ∷ w.trace;
        } in
        path ≢ fifo
        → os.answer (open_read fifo) w.sys ≡ (done f, s)
        → os.answer (read_all f) s ≡ (done content, t)
        → str_eq content "" ≡ false
        → (save_state d v).0 ≡ ok tt
        → storage.content path (exec c w).1.sys ≡ some (codec.encode_state d.state)
  unfolding exec
  exec-content c w {f} {content} {s} {t} differ opened read full saved =
      let d = as_running c in
      let fifo = join c.root exec_fifo_filename in
      let path = join c.root state_filename in
      let v : World = record {
        sys = t;
        trace = called (read_all f) ∷ called (open_read fifo) ∷ w.trace;
      } in
      let u = (save_state d v).1.sys in
      let left = (os.answer (remove fifo) u).1 in
      let last : (exec c w).1.sys ≡ (os.answer (close f) left).1 = ground arith in
      ap (storage.content path) last
      ∙ kept.close_keeps path f left
      ∙ kept.remove_keeps path fifo u differ
      ∙ save_state-content storage d v saved

  -- A fifo that is read and not empty makes `exec` succeed; where the state is saved, and the fifo is
  -- not the state file, every later run that finds the files as `exec` leaves them loads the
  -- container as running.
  pub exec-load :
      (c : Container) (w : World) {f : ℕ} {content : String} {s t : os.Sys}
      → let fifo = join c.root exec_fifo_filename in
        let d = as_running c in
        let v : World = record {
          sys = t;
          trace = called (read_all f) ∷ called (open_read fifo) ∷ w.trace;
        } in
        root ≢ ""
        → c.root ≡ join root c.id
        → join c.root state_filename ≢ fifo
        → IsFaithful codec d.state
        → os.answer (open_read fifo) w.sys ≡ (done f, s)
        → os.answer (read_all f) s ≡ (done content, t)
        → str_eq content "" ≡ false
        → (save_state d v).0 ≡ ok tt
        → ((exec c w).0 ≡ ok (d, none)) × ((load root c.id (exec c w).1).0 ≡ ok (reloaded d))
  unfolding exec
  exec-load c w {f} {content} {s} {t} r at differ faithful opened read full saved = (
    ground arith,
    load-stored storage root (as_running c) (exec c w).1 faithful r at
        (exec-content c w differ opened read full saved),
  )

  -- `start`, where each call up to the start time succeeds and the state is saved: every later run
  -- that finds the files as `start` leaves them loads the container as created, with the pid of its
  -- process.
  pub start-load :
      (c : Container) (p : Process) (w : World) {child parent dir pid time : ℕ} {t : String}
      {s₁ s₂ s₃ s₄ s₅ s₆ : os.Sys}
      → let message = codec.encode_init (init_config c) in
        let command = record (init_command c p child dir) { input = message } in
        let d = with_state c (record c.state {
          init_process_pid = pid;
          init_process_start_time = t;
          created_at = time;
          status = created;
        }) in
        let v : World = record {
          sys = s₆;
          trace =
              called (start_time pid)
              ∷ called now
              ∷ called (start_command command)
              ∷ called (write parent message)
              ∷ called (open_read c.root)
              ∷ called socketpair
              ∷ w.trace;
        } in
        root ≢ ""
        → c.root ≡ join root c.id
        → IsFaithful codec d.state
        → os.answer socketpair w.sys ≡ (done (child, parent), s₁)
        → os.answer (open_read c.root) s₁ ≡ (done dir, s₂)
        → os.answer (write parent message) s₂ ≡ (done tt, s₃)
        → os.answer (start_command command) s₃ ≡ (done pid, s₄)
        → os.answer now s₄ ≡ (time, s₅)
        → os.answer (start_time pid) s₅ ≡ (done t, s₆)
        → (save_state d v).0 ≡ ok tt
        → (load root c.id (start c p w).1).0 ≡ ok (reloaded d)
  unfolding start
  start-load c p w {child} {parent} {dir} {pid} {time} {t} {s₆ = s₆} r at faithful h₁ h₂ h₃ h₄ h₅ h₆
        saved =
      let message = codec.encode_init (init_config c) in
      let command = record (init_command c p child dir) { input = message } in
      let d = with_state c (record c.state {
        init_process_pid = pid;
        init_process_start_time = t;
        created_at = time;
        status = created;
      }) in
      let v : World = record {
        sys = s₆;
        trace =
            called (start_time pid)
            ∷ called now
            ∷ called (start_command command)
            ∷ called (write parent message)
            ∷ called (open_read c.root)
            ∷ called socketpair
            ∷ w.trace;
      } in
      let u = (save_state d v).1.sys in
      let last : (start c p w).1.sys ≡ (os.answer (close parent) u).1 = ground arith in
      load-stored storage root d (start c p w).1 faithful r at (
        ap (storage.content (join c.root state_filename)) last
        ∙ kept.close_keeps (join c.root state_filename) parent u
        ∙ save_state-content storage d v saved)
