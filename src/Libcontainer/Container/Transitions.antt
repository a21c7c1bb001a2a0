-- ===== src/Libcontainer/Container/Transitions.antt =====
-- The life of a container as a machine on its status alone, and the methods of
-- libcontainer/container_nabla.go as an implementation of it.
use mathlib.Core.Path.{subst}
use runnc.Base.{◌≡◌, ◌≢◌, sym, ◌∙◌, ◌⊎◌, inl, inr, Option, List, [], ◌∷◌, arith}
use runnc.Go.{ok, GoError}
use runnc.Os.{Os, World, >>=-eq-ok}
use runnc.Llif.{RunllcHandler}
use runnc.Libcontainer.Process.{Process}
use runnc.Libcontainer.State.{Status, created, running, stopped, Container, Codec}
use runnc.Libcontainer.Container.{start, exec, current_state, destroy, save_state}
use runnc.Libcontainer.Container.Destroy.{destroy-IsStopped}
use runnc.Libcontainer.Container.Lifecycle.{
  Op, start_op, exec_op, state_op, destroy_op, perform, perform_all,
}

-- What a method may do to the status: `start` makes it created, `exec` running, a look at the process
-- stopped, each unless it fails or the process is there; `destroy` makes it stopped.
pub data Moves : Op → Status → Status → Type 0 where
  starts : {p : Process} {s t : Status} → (t ≡ created) ⊎ (t ≡ s) → Moves (start_op p) s t
  execs : {s t : Status} → (t ≡ running) ⊎ (t ≡ s) → Moves exec_op s t
  looks : {s t : Status} → (t ≡ stopped) ⊎ (t ≡ s) → Moves state_op s t
  destroys : {s t : Status} → t ≡ stopped → Moves destroy_op s t

-- A sequence of methods, in order.
pub data Runs : List Op → Status → Status → Type 0 where
  rests : {s : Status} → Runs [] s s
  moves :
      {o : Op} {ops : List Op} {s t u : Status} → Moves o s t → Runs ops t u → Runs (o ∷ ops) s u

-- Is there a call of `exec` in the sequence?
pub data HasExec : List Op → Type 0 where
  here : {ops : List Op} → HasExec (exec_op ∷ ops)
  later : {o : Op} {ops : List Op} → HasExec ops → HasExec (o ∷ ops)

moved-exec :
    (o : Op) (s t : Status)
    → Moves o s t
    → t ≡ running
    → (s ≡ running) ⊎ ((ops : List Op) → HasExec (o ∷ ops))
moved-exec _ s t (starts (inl c)) r = ground arith
moved-exec _ s t (starts (inr c)) r = inl (sym c ∙ r)
moved-exec _ s t (execs e) r = inr (λ ops. here)
moved-exec _ s t (looks (inl c)) r = ground arith
moved-exec _ s t (looks (inr c)) r = inl (sym c ∙ r)
moved-exec _ s t (destroys c) r = ground arith

Runs-exec :
    (ops : List Op) (s u : Status) → Runs ops s u → u ≡ running → (s ≡ running) ⊎ HasExec ops
Runs-exec _ s _ rests r = inl r
Runs-exec _ s u (moves {o = o} {ops = ops} {t = t} m rest) r = elim (Runs-exec ops t u rest r) [
  | inl at ↦ elim (moved-exec o s t m at) [ inl first ↦ inl first | inr called ↦ inr (called ops) ]
  | inr found ↦ inr (later found)
]

module _ ⦃os : Os⦄ ⦃codec : Codec⦄ (llc : RunllcHandler) where
  start-status :
      (c : Container) (p : Process) (w : World) {d : Container} {q : Process} {e : Option GoError}
      → (start c p w).0 ≡ ok (d, q, e)
      → (d.state.status ≡ created) ⊎ (d.state.status ≡ c.state.status)
  unfolding start save_state
  start-status c p w h = ground arith

  exec-status :
      (c : Container) (w : World) {d : Container} {e : Option GoError}
      → (exec c w).0 ≡ ok (d, e)
      → (d.state.status ≡ running) ⊎ (d.state.status ≡ c.state.status)
  unfolding exec save_state
  exec-status c w h = ground arith

  current_state-status :
      (c : Container) (w : World) {d : Container}
      → (current_state c w).0 ≡ ok d
      → (d.state.status ≡ stopped) ⊎ (d.state.status ≡ c.state.status)
  unfolding current_state save_state
  current_state-status c w h = ground arith

  kept : {x d : Container} → ok x ≡ ok d → x ≡ d
  kept h = ground arith

  perform-Moves :
      (o : Op) (c : Container) (w : World) {d : Container}
      → (perform llc o c w).0 ≡ ok d
      → Moves o c.state.status d.state.status
  unfolding perform
  perform-Moves (start_op p) c w h =
      let ((x, q, e), begun, same) = >>=-eq-ok (start c p) _ w h in
      starts (
        subst (λ y. (y.state.status ≡ created) ⊎ (y.state.status ≡ c.state.status)) (kept same)
          (start-status c p w begun))
  perform-Moves exec_op c w h =
      let ((x, e), ran, same) = >>=-eq-ok (exec c) _ w h in
      execs (
        subst (λ y. (y.state.status ≡ running) ⊎ (y.state.status ≡ c.state.status)) (kept same)
          (exec-status c w ran))
  perform-Moves state_op c w h = looks (current_state-status c w h)
  perform-Moves destroy_op c w h =
      let ((x, e), gone, same) = >>=-eq-ok (destroy llc c) _ w h in
      let at = destroy-IsStopped llc c w gone in
      destroys (subst (λ y. y.state.status ≡ stopped) (kept same) at.is_stopped)

  runs :
      (ops : List Op) (c : Container) (w : World) {d : Container}
      → (perform_all llc ops c w).0 ≡ ok d
      → Runs ops c.state.status d.state.status
  unfolding perform_all
  runs [] c w {d} h = subst (λ y. Runs [] c.state.status y.state.status) (kept h) rests
  runs (o ∷ ops) c w h =
      let (x, first, rest) = >>=-eq-ok (perform llc o c) _ w h in
      moves (perform-Moves o c w first) (runs ops x (perform llc o c w).1 rest)

  -- Every sequence of methods on a container, whichever of them fail, moves its status as the machine
  -- on statuses alone can; and a container that is running after it, and was not before, has been
  -- given to `exec`.
  pub perform_all-Runs :
      (ops : List Op) (c : Container) (w : World) {d : Container}
      → (perform_all llc ops c w).0 ≡ ok d
      → Runs ops c.state.status d.state.status
        × (d.state.status ≡ running → c.state.status ≢ running → HasExec ops)
  perform_all-Runs ops c w {d} h =
      let r = runs ops c w h in
      (
        r,
        λ is was. elim (Runs-exec ops c.state.status d.state.status r is) [
          | inl before ↦ absurd (was before)
          | inr found ↦ found
        ],
      )
