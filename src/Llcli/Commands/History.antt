-- ===== src/Llcli/Commands/History.antt =====
-- Runs of the program that share nothing but a container's state file (llcli/start.go, state.go and
-- kill.go), as a machine on the status in that file.
use mathlib.Core.Path.{subst}
use runnc.Base.{◌⊎◌, inl, inr, ◌≡◌, ◌≢◌, refl, sym, ap, ◌∙◌, String, List, [], ◌∷◌, join, arith}
use runnc.Go.{ok}
use runnc.Os.{Os, World}
use runnc.Libcontainer.State.{
  Status, created, running, pausing, paused, stopped, State, Container, Codec, exec_fifo_filename,
}
use runnc.Libcontainer.Container.{current_state, save_state}
use runnc.Libcontainer.Factory.Load.{IsStorage, IsFaithful, persistent}
use runnc.Libcontainer.Container.Persistence.{IsKept, reloaded}
use runnc.Libcontainer.Container.{with_state}
use runnc.Llcli.Context.{Context}
use runnc.Llcli.Containers.{get_container, load_factory}
use runnc.Llcli.Commands.{start_cmd, state_cmd}
use runnc.Llcli.Kill.{kill_cmd}
use runnc.Llcli.Commands.Frame.{IsHarmless, factory_keeps, get_keeps, kill_cmd_keeps}
use runnc.Llcli.Commands.Stored.{IsStored, Sees, at_status, state_path, still, looks, execs}
use runnc.Llcli.Commands.Restarting.{get_container-stored}
use runnc.Llcli.Commands.Starting.{start_cmd_lem}
use runnc.Llcli.Context.{first_arg}

pub data Run : Type 0 where
  start_run state_run kill_run : Run

-- What a run may do to the status in the file: `start` makes a created container running, `start` and
-- `state` note that one has stopped, and each may leave it as it is.
pub data Moved : Run → Status → Status → Type 0 where
  stays : {r : Run} {s t : Status} → t ≡ s → Moved r s t
  begins : {s t : Status} → s ≡ created → t ≡ running → Moved start_run s t
  start_ends : {s t : Status} → t ≡ stopped → Moved start_run s t
  state_ends : {s t : Status} → t ≡ stopped → Moved state_run s t

-- A sequence of runs, in order.
pub data Along : List Run → Status → Status → Type 0 where
  rests : {s : Status} → Along [] s s
  moves :
      {r : Run} {rs : List Run} {s t u : Status} → Moved r s t → Along rs t u → Along (r ∷ rs) s u

Moved-created : (r : Run) (s t : Status) → Moved r s t → s ≢ created → t ≢ created
Moved-created r s t (stays e) n = λ h. n (sym e ∙ h)
Moved-created r s t (begins c e) n = absurd (n c)
Moved-created r s t (start_ends e) n = λ h. ground arith
Moved-created r s t (state_ends e) n = λ h. ground arith

Along-created : (rs : List Run) (s t : Status) → Along rs s t → s ≢ created → t ≢ created
Along-created _ s _ rests n = n
Along-created _ s t (moves {r = r} {rs = rs} {t = m} one rest) n =
    Along-created rs m t rest (Moved-created r s m one n)

is_created : (s : Status) → (s ≡ created) ⊎ (s ≢ created)
is_created created = inl refl
is_created running = inr (λ h. ground arith)
is_created pausing = inr (λ h. ground arith)
is_created paused = inr (λ h. ground arith)
is_created stopped = inr (λ h. ground arith)

module _ ⦃os : Os⦄ ⦃codec : Codec⦄ (search_labels : List String → String → String)
    (ctx : Context) where
  -- The world after a run, however it ends.
  abbrev pub after : Run → World → World
  after start_run w = (start_cmd ctx w).1
  after state_run w = (state_cmd search_labels ctx w).1
  after kill_run w = (kill_cmd ctx w).1

  pub after_all : List Run → World → World
  after_all [] w = w
  after_all (r ∷ rs) w = after_all rs (after r w)

  module _ (storage : IsStorage os) (c : Container)
      (harmless : IsHarmless os storage (state_path c))
      (saves : (d : Container) (w : World) → (save_state d w).0 ≡ ok tt) (kept : IsKept os storage)
      (differ : state_path c ≢ join c.root exec_fifo_filename)
      (faithful : (s : State) (st : Status)
        → persistent s ≡ persistent (at_status c st)
        → IsFaithful codec s)
      (named : first_arg ctx.args ≡ c.id) (given : c.id ≢ "") {root : String} (rooted : root ≢ "")
      (factory : (w : World) → (load_factory ctx w).0 ≡ ok root)
      (at : c.root ≡ join root c.id) where
    finds :
        (st : Status) (w : World)
        → IsStored storage c st w
        → (x : Container) × ((get_container ctx w).0 ≡ ok x)
          × Sees storage c st x (get_container ctx w).1
    finds st w i = (
      reloaded (with_state c i.state),
      get_container-stored storage (with_state c i.state) ctx w named given rooted (factory w) at
          (faithful i.state st i.agrees) (factory_keeps storage _ harmless ctx w ∙ i.written),
      record {
        root_is = refl;
        same = i.agrees;
        stored = still storage c st w _ (get_keeps storage _ harmless ctx w) i;
      },
    )

    abbrev Goes : Run → Status → World → Type 0
    Goes r st w = (s : Status) × Moved r st s × IsStored storage c s (after r w)

    looked_start : (st s : Status) → (s ≡ stopped) ⊎ (s ≡ st) → Moved start_run st s
    looked_start st s (inl e) = start_ends e
    looked_start st s (inr e) = stays e

    begun :
        (st s t : Status)
        → (s ≡ stopped) ⊎ (s ≡ st)
        → s ≡ created
        → (t ≡ running) ⊎ (t ≡ s)
        → Moved start_run st t
    begun st s t (inl e) k m = ground arith
    begun st s t (inr e) k (inl m) = begins (sym e ∙ k) m
    begun st s t (inr e) k (inr m) = stays (m ∙ e)

    starts : (st : Status) (w : World) → IsStored storage c st w → Goes start_run st w
    starts st w i =
        let (x, got, sees) = finds st w i in
        let v = (get_container ctx w).1 in
        let (s, e, looked, seen, sees') = looks storage c harmless saves st x v sees in
        let u = (current_state x v).1 in
        let lem = start_cmd_lem ctx w got seen in
        let status_is : e.state.status ≡ s = ap (λ (t : State). t.status) sees'.same in
        elim (is_created e.state.status) [
          | inl so ↦
              let (t, y, er, execd, ran, left) =
                execs storage c harmless saves kept differ s e u sees' in
              let ends = (lem.1 so y er ran).0 in
              (
                t,
                begun st s t looked (sym status_is ∙ so) execd,
                subst (IsStored storage c t) (sym ends) left,
              )
          | inr other ↦
              let (er, ends) = lem.0 other in
              (
                s,
                looked_start st s looked,
                subst (IsStored storage c s) (sym (ap (λ r. r.1) ends)) sees'.stored,
              )
        ]

    shown :
        (w : World) {x e y : Container}
        → (get_container ctx w).0 ≡ ok x
        → let v = (get_container ctx w).1 in
          (current_state x v).0 ≡ ok e
          → (current_state e (current_state x v).1).0 ≡ ok y
          → after state_run w ≡ (current_state e (current_state x v).1).1
    unfolding state_cmd
    shown w got one two = ground arith

    state_moved :
        (st s t : Status)
        → (s ≡ stopped) ⊎ (s ≡ st)
        → (t ≡ stopped) ⊎ (t ≡ s)
        → Moved state_run st t
    state_moved st s t a (inl e) = state_ends e
    state_moved st s t (inl e) (inr f) = state_ends (f ∙ e)
    state_moved st s t (inr e) (inr f) = stays (f ∙ e)

    states : (st : Status) (w : World) → IsStored storage c st w → Goes state_run st w
    states st w i =
        let (x, got, sees) = finds st w i in
        let v = (get_container ctx w).1 in
        let (s, e, looked, seen, sees') = looks storage c harmless saves st x v sees in
        let (t, y, looked', seen', sees'') =
          looks storage c harmless saves s e (current_state x v).1 sees' in
        (
          t,
          state_moved st s t looked looked',
          subst (IsStored storage c t) (sym (shown w got seen seen')) sees''.stored,
        )

    goes : (r : Run) (st : Status) (w : World) → IsStored storage c st w → Goes r st w
    goes start_run st w i = starts st w i
    goes state_run st w i = states st w i
    goes kill_run st w i =
        (st, stays refl, still storage c st w _ (kill_cmd_keeps storage _ harmless ctx w) i)

    goes-Along :
        (rs : List Run) (st : Status) (w : World)
        → IsStored storage c st w
        → (s : Status) × Along rs st s × IsStored storage c s (after_all rs w)
    unfolding after_all
    goes-Along [] st w i = (st, rests, i)
    goes-Along (r ∷ rs) st w i =
        let (s, m, j) = goes r st w i in
        let (t, ms, k) = goes-Along rs s (after r w) j in (t, moves m ms, k)

    -- Where the state file holds the state of a container, the root is found by every run, savings
    -- never fail, the container's states are written faithfully, looks, signals, closings and the
    -- removal of other files keep what the file holds, and the fifo is not the state file: whichever runs of `start`, `state` and `kill` follow, and whether or not
    -- they succeed, the file holds the state of the same container, with a status that the machine of
    -- the runs leads to; and once this is not created, it is not again.
    pub after_all-Along :
        (rs : List Run) (st : Status) (w : World)
        → IsStored storage c st w
        → (s : Status) × Along rs st s
          × IsStored storage c s (after_all rs w)
          × (st ≢ created → s ≢ created)
    after_all-Along rs st w i =
        let (s, along, left) = goes-Along rs st w i in (s, along, left, Along-created rs st s along)
