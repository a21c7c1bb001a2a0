-- ===== src/Llcli/Commands/Stored.antt =====
-- What a look at the process and an `exec` leave in the state file of a container
-- (libcontainer/container_nabla.go).
use mathlib.Core.Path.{subst}
use runnc.Base.{
  Option, Bool, true, false, ◌⊎◌, inl, inr, ℕ, ◌≡◌, ◌≢◌, refl, sym, ap, ◌∙◌, String, ◌∷◌, some,
  none, join, str_eq, arith,
}
use runnc.Go.{ok, GoError, text, Reply, done, failed}
use runnc.Os.{Os, World, called, ask, signal_process, open_read, read_all}
use runnc.Libcontainer.Errors.{new_system_error_with_cause}
use runnc.Libcontainer.State.{
  Status, running, stopped, State, Container, Codec, state_filename, exec_fifo_filename,
}
use runnc.Libcontainer.Container.{exec, current_state, save_state}
use runnc.Libcontainer.Factory.Load.{IsStorage, persistent, save_state-content}
use runnc.Libcontainer.Container.Lifecycle.{as_stopped, as_running}
use runnc.Libcontainer.Container.Persistence.{IsKept, exec-content}
use runnc.Llcli.Commands.Frame.{IsHarmless}

-- The container's state with another status.
abbrev pub at_status : Container → Status → State
at_status c s = record c.state { status = s }

abbrev pub state_path : Container → String
state_path c = join c.root state_filename

module _ ⦃os : Os⦄ ⦃codec : Codec⦄ (storage : IsStorage os) (c : Container) where
  -- The state file holds the container's state with this status, up to objects in memory.
  pub record IsStored (st : Status) (w : World) : Type 0 where
    pub state : State
    pub written : storage.content (state_path c) w.sys ≡ some (codec.encode_state state)
    pub agrees : persistent state ≡ persistent (at_status c st)

  restatus :
      (st s : Status) (t : State)
      → persistent t ≡ persistent (at_status c st)
      → persistent (record t { status = s }) ≡ persistent (at_status c s)
  restatus st s t h = ap (λ (x : State). record x { status = s }) h

  pub still :
      (st : Status) (w v : World)
      → storage.content (state_path c) v.sys ≡ storage.content (state_path c) w.sys
      → IsStored st w
      → IsStored st v
  still st w v h i = record { state = i.state; written = h ∙ i.written; agrees = i.agrees }

  -- And a run has it in memory.
  pub record Sees (st : Status) (d : Container) (w : World) : Type 0 where
    pub root_is : d.root ≡ c.root
    pub same : persistent d.state ≡ persistent (at_status c st)
    pub stored : IsStored st w

  module _ (harmless : IsHarmless os storage (state_path c))
      (saves : (d : Container) (w : World) → (save_state d w).0 ≡ ok tt) where
    abbrev probed : Container → World → World
    probed d w = (ask (signal_process d.state.init_process_pid 0) w).1

    looks_by :
        (st : Status) (d : Container) (w : World) (q : Reply (Unit {0}))
        → (os.answer (signal_process d.state.init_process_pid 0) w.sys).0 ≡ q
        → Sees st d w
        → (s : Status) × (e : Container) × ((s ≡ stopped) ⊎ (s ≡ st))
          × ((current_state d w).0 ≡ ok e)
          × Sees s e (current_state d w).1
    unfolding current_state
    looks_by st d w (done u) a i =
        let stays : storage.content (state_path c) (current_state d w).1.sys
            ≡ storage.content (state_path c) w.sys =
          grind (arith, harmless.probe_keeps) in
        (
          st,
          d,
          inr refl,
          ground arith,
          record {
            root_is = i.root_is;
            same = i.same;
            stored = record {
              state = i.stored.state;
              written = stays ∙ i.stored.written;
              agrees = i.stored.agrees;
            };
          },
        )
    looks_by st d w (failed x) a i =
        let e = as_stopped d in
        let v = probed d w in
        let written = saves e v in
        let ends : (current_state d w).1.sys ≡ (save_state e v).1.sys = ground arith in
        let path_is : state_path c ≡ join e.root state_filename =
          ap (λ r. join r state_filename) (sym i.root_is) in
        let left : storage.content (state_path c) (current_state d w).1.sys
            ≡ some (codec.encode_state e.state) =
          ap (λ p. storage.content p (current_state d w).1.sys) path_is
          ∙ ap (storage.content (join e.root state_filename)) ends
          ∙ save_state-content storage e v written in
        (
          stopped,
          e,
          inl refl,
          ground arith,
          record {
            root_is = i.root_is;
            same = restatus st stopped d.state i.same;
            stored = record {
              state = e.state;
              written = left;
              agrees = restatus st stopped d.state i.same;
            };
          },
        )

    pub looks :
        (st : Status) (d : Container) (w : World)
        → Sees st d w
        → (s : Status) × (e : Container) × ((s ≡ stopped) ⊎ (s ≡ st))
          × ((current_state d w).0 ≡ ok e)
          × Sees s e (current_state d w).1
    looks st d w i = looks_by st d w _ refl i

    module _ (kept : IsKept os storage)
        (differ : (state_path c) ≢ join c.root exec_fifo_filename) where
      -- What an `exec` may do to the status, and what it leaves.
      abbrev pub Execs : Status → Container → World → Type 0
      Execs st d w =
          (s : Status) × (x : Container) × (e : Option GoError) × ((s ≡ running) ⊎ (s ≡ st))
          × ((exec d w).0 ≡ ok (x, e))
          × IsStored s (exec d w).1

      Execs-full :
          (st : Status) (d : Container) (w : World) (f : ℕ) (content : String) (s t : os.Sys)
          (b : Bool)
          → os.answer (open_read (join d.root exec_fifo_filename)) w.sys ≡ (done f, s)
          → os.answer (read_all f) s ≡ (done content, t)
          → str_eq content "" ≡ b
          → Sees st d w
          → Execs st d w
      unfolding exec
      Execs-full st d w f content s t true o r h i =
          let stays : storage.content (state_path c) (exec d w).1.sys
              ≡ storage.content (state_path c) w.sys =
            grind (arith, harmless.open_keeps, harmless.read_keeps, harmless.close_keeps) in
          (
            st,
            d,
            some (text "cannot start an already running container"),
            inr refl,
            ground arith,
            still st w _ stays i.stored,
          )
      Execs-full st d w f content s t false o r h i =
          let e = as_running d in
          let differ' : join d.root state_filename ≢ join d.root exec_fifo_filename =
            subst (λ x. join x state_filename ≢ join x exec_fifo_filename) (sym i.root_is) differ in
          let done_at = saves e (record {
            sys = t;
            trace =
                called (read_all f) ∷ called (open_read (join d.root exec_fifo_filename)) ∷ w.trace;
          }) in
          let written : storage.content (state_path c) (exec d w).1.sys
              ≡ some (codec.encode_state e.state) =
            ap (λ r. storage.content (join r state_filename) (exec d w).1.sys) (sym i.root_is)
            ∙ exec-content storage kept "" d w differ' o r h done_at in
          (
            running,
            e,
            none,
            inl refl,
            ground arith,
            record {
              state = e.state;
              written = written;
              agrees = restatus st running d.state i.same;
            },
          )

      Execs-read :
          (st : Status) (d : Container) (w : World) (f : ℕ) (s : os.Sys) (q : Reply String × os.Sys)
          → os.answer (open_read (join d.root exec_fifo_filename)) w.sys ≡ (done f, s)
          → os.answer (read_all f) s ≡ q
          → Sees st d w
          → Execs st d w
      unfolding exec
      Execs-read st d w f s (done content, t) o r i = Execs-full st d w f content s t _ o r refl i
      Execs-read st d w f s (failed x, t) o r i =
          let stays : storage.content (state_path c) (exec d w).1.sys
              ≡ storage.content (state_path c) w.sys =
            grind (arith, harmless.open_keeps, harmless.read_keeps, harmless.close_keeps) in
          (st, d, some x, inr refl, ground arith, still st w _ stays i.stored)

      Execs-by :
          (st : Status) (d : Container) (w : World) (q : Reply ℕ × os.Sys)
          → os.answer (open_read (join d.root exec_fifo_filename)) w.sys ≡ q
          → Sees st d w
          → Execs st d w
      unfolding exec
      Execs-by st d w (done f, s) o i = Execs-read st d w f s _ o refl i
      Execs-by st d w (failed x, s) o i =
          let stays : storage.content (state_path c) (exec d w).1.sys
              ≡ storage.content (state_path c) w.sys =
            grind (arith, harmless.open_keeps) in
          (
            st,
            d,
            some (new_system_error_with_cause x "open exec fifo for reading"),
            inr refl,
            ground arith,
            still st w _ stays i.stored,
          )

      pub execs : (st : Status) (d : Container) (w : World) → Sees st d w → Execs st d w
      execs st d w i = Execs-by st d w _ refl i
