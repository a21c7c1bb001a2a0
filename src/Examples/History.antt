-- ===== src/Examples/History.antt =====
-- The theorem about sequences of runs, at a concrete input.
use runnc.Base.{
  ◌≡◌, ◌≢◌, refl, sym, ap, ◌∙◌, String, some, [], ◌∷◌, true, str_eq, if◌then◌else◌, join, arith,
}
use runnc.Go.{done}
use runnc.Os.{World}
use runnc.Libcontainer.State.{
  Status, created, running, pausing, paused, stopped, State, Container, Codec, status_string,
}
use runnc.Libcontainer.Container.{save_state}
use runnc.Libcontainer.Factory.{new_factory}
use runnc.Libcontainer.Factory.Load.{IsFaithful, persistent}
use runnc.Llcli.Containers.{load_factory}
use runnc.Llcli.Commands.Frame.{IsHarmless}
use runnc.Llcli.Commands.Stored.{IsStored, at_status}
use runnc.Llcli.Commands.History.{Along, start_run, state_run, kill_run, after_all, after_all-Along}
use runnc.Examples.Machine.{machine-IsKept, machine, machine_storage, world_of, differ}
use runnc.Examples.Data.{status_codec, box, state_of, context}

abbrev any_status : String → Status
any_status s =
    if str_eq s "created"
    then created
    else if str_eq s "running"
    then running
    else if str_eq s "pausing"
    then pausing
    else if str_eq s "paused"
    then paused
    else stopped

-- The states of one container are written as their status.
abbrev box_codec : Codec
box_codec = record status_codec { decode_state = λ s. done (some (state_of "box" (any_status s))) }

abbrev rooted_box : Container
rooted_box = record (box created) { root = "/box" }

any_status-status_string : (s : Status) → any_status (status_string s) ≡ s
unfolding status_string
any_status-status_string created = refl
any_status-status_string running = refl
any_status-status_string pausing = refl
any_status-status_string paused = refl
any_status-status_string stopped = refl

box-IsFaithful :
    (s : State) (st : Status)
    → persistent s ≡ persistent (at_status rooted_box st)
    → IsFaithful box_codec s
box-IsFaithful s st h =
    ap (λ x. done (some (state_of "box" x))) (any_status-status_string s.status)
    ∙ ap (λ (t : State). done (some (state_of "box" t.status))) h
    ∙ ap (λ (t : State). done (some t)) (sym h)

box-IsHarmless : IsHarmless machine machine_storage "/box/state.json"
unfolding machine_storage
box-IsHarmless = record {
  abs_keeps = λ p s. refl;
  mkdir_keeps = λ p mode s. refl;
  open_keeps = λ p s. ground arith;
  read_keeps = λ f s. refl;
  close_keeps = λ f s. refl;
  probe_keeps = λ pid sig s. refl;
  kill_keeps = λ pid sig s. refl;
}

abbrev ready : World
ready = world_of (("/box/state.json", "created") ∷ ("/box/exec.fifo", "0") ∷ []) true

ready-IsStored : IsStored ⦃codec = box_codec⦄ machine_storage rooted_box created ready
unfolding machine_storage status_string join
ready-IsStored = record { state = rooted_box.state; written = refl; agrees = refl }

after_all-Along_example :
    let rs = state_run ∷ start_run ∷ kill_run ∷ state_run ∷ [] in
    (s : Status) × Along rs created s
    × IsStored ⦃codec = box_codec⦄ machine_storage rooted_box s
        (after_all ⦃codec = box_codec⦄ (λ l k. "") context rs ready)
    × (created ≢ created → s ≢ created)
unfolding join save_state load_factory new_factory
after_all-Along_example =
    after_all-Along ⦃codec = box_codec⦄ (λ l k. "") context machine_storage rooted_box
      box-IsHarmless (λ d w. refl) machine-IsKept (differ _ _ refl) box-IsFaithful refl
      (differ "box" "" refl) {root = "/"} (differ "/" "" refl) (λ w. refl) refl
      (state_run ∷ start_run ∷ kill_run ∷ state_run ∷ []) created ready ready-IsStored
