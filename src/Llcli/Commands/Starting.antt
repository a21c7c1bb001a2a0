-- ===== src/Llcli/Commands/Starting.antt =====
-- Which containers `start` of llcli/start.go starts.
use runnc.Base.{◌≡◌, ◌≢◌, refl, Option, none, arith}
use runnc.Go.{ok, err, GoError}
use runnc.Os.{Os, World}
use runnc.Libcontainer.State.{Status, created, running, pausing, paused, stopped, Container, Codec}
use runnc.Libcontainer.Container.{exec, current_state}
use runnc.Llcli.Context.{Context}
use runnc.Llcli.Containers.{get_container}
use runnc.Llcli.Commands.{start_cmd, start_by_status}

module _ ⦃os : Os⦄ ⦃codec : Codec⦄ where
  refused :
      (c : Container) (s : Status) (w : World)
      → s ≢ created
      → (e : GoError) × (start_by_status c s w ≡ (err e, w))
  unfolding start_by_status
  refused c created w n = absurd (n refl)
  refused c running w n = (_, refl)
  refused c pausing w n = (_, refl)
  refused c paused w n = (_, refl)
  refused c stopped w n = (_, refl)

  -- `start` of a container that is found runs its `exec`, and fails exactly if that reports an
  -- error, when its current state is created; in any other state it fails and makes no further call.
  pub start_cmd_lem :
      (ctx : Context) (w : World) {c d : Container}
      → (get_container ctx w).0 ≡ ok c
      → (current_state c (get_container ctx w).1).0 ≡ ok d
      → let v = (current_state c (get_container ctx w).1).1 in
        (d.state.status ≢ created → (e : GoError) × (start_cmd ctx w ≡ (err e, v)))
        × (d.state.status ≡ created
            → (x : Container) (e : Option GoError) → (exec d v).0 ≡ ok (x, e)
            → ((start_cmd ctx w).1 ≡ (exec d v).1)
              × (((start_cmd ctx w).0 ≡ ok tt → e ≡ none)
                  × (e ≡ none → (start_cmd ctx w).0 ≡ ok tt)))
  unfolding start_cmd start_by_status
  start_cmd_lem ctx w {c} {d} g s =
      let v = (current_state c (get_container ctx w).1).1 in
      (
        λ n. let (e, r) = refused d d.state.status v n in (e, ground arith),
        λ h x e r. (ground arith, (λ k. ground arith, λ k. ground arith)),
      )
