-- ===== src/Llcli/Commands/Restarting.antt =====
-- Which containers a run of `start` (llcli/start.go) refuses, by what an earlier run has left in the
-- state file.
use runnc.Base.{◌≡◌, ◌≢◌, refl, sym, ap, ◌∙◌, String, some, str_eq_iff, join, arith}
use runnc.Go.{ok, err, GoError, Reply, done, failed}
use runnc.Os.{Os, World, signal_process}
use runnc.Libcontainer.State.{created, Container, Codec, state_filename}
use runnc.Libcontainer.Container.{current_state, save_state}
use runnc.Libcontainer.Container.Lifecycle.{as_stopped}
use runnc.Libcontainer.Container.Persistence.{reloaded}
use runnc.Libcontainer.Factory.{load}
use runnc.Libcontainer.Factory.Load.{IsStorage, IsFaithful, load-stored}
use runnc.Llcli.Context.{Context, first_arg}
use runnc.Llcli.Containers.{get_container, load_factory}
use runnc.Llcli.Commands.{start_cmd}
use runnc.Llcli.Commands.Starting.{start_cmd_lem}

module _ ⦃os : Os⦄ ⦃codec : Codec⦄ where
  pub found :
      (ctx : Context) (w : World) {root : String}
      → first_arg ctx.args ≢ ""
      → (load_factory ctx w).0 ≡ ok root
      → (get_container ctx w).0 ≡ (load root (first_arg ctx.args) (load_factory ctx w).1).0
  unfolding get_container
  found ctx w n h = ground (arith, str_eq_iff (first_arg ctx.args) "")

  looked :
      (c : Container) (w : World) (q : Reply (Unit {0}))
      → (os.answer (signal_process c.state.init_process_pid 0) w.sys).0 ≡ q
      → c.state.status ≢ created
      → (d : Container) × ((current_state c w).0 ≡ ok d) × (d.state.status ≢ created)
  unfolding current_state save_state
  looked c w (done tt) h n = (c, ground arith, n)
  looked c w (failed e) h n = (as_stopped c, ground arith, λ x. ground arith)

  -- The process may be there or not: a look at it does not make a container created.
  looked_at :
      (c : Container) (w : World)
      → c.state.status ≢ created
      → (d : Container) × ((current_state c w).0 ≡ ok d) × (d.state.status ≢ created)
  looked_at c w n = looked c w _ refl n

  -- The container whose state is stored is found by its id.
  pub get_container-stored :
      (storage : IsStorage os) (c : Container) (ctx : Context) (w : World) {root : String}
      → first_arg ctx.args ≡ c.id
      → c.id ≢ ""
      → root ≢ ""
      → (load_factory ctx w).0 ≡ ok root
      → c.root ≡ join root c.id
      → IsFaithful codec c.state
      → storage.content (join c.root state_filename) (load_factory ctx w).1.sys
        ≡ some (codec.encode_state c.state)
      → (get_container ctx w).0 ≡ ok (reloaded c)
  get_container-stored storage c ctx w {root} named given rooted factory at faithful held =
      found ctx w (λ blank. given (sym named ∙ blank)) factory
      ∙ ap (λ id. (load root id (load_factory ctx w).1).0) named
      ∙ load-stored storage root c (load_factory ctx w).1 faithful rooted at held

  -- Where the state file holds any state but created, as after an earlier `start`, `start` fails, and
  -- it makes no call after it has looked at the process and recorded what it saw.
  pub start_cmd-stored :
      (storage : IsStorage os) (c : Container) (ctx : Context) (w : World) {root : String}
      → first_arg ctx.args ≡ c.id
      → c.id ≢ ""
      → root ≢ ""
      → (load_factory ctx w).0 ≡ ok root
      → c.root ≡ join root c.id
      → IsFaithful codec c.state
      → storage.content (join c.root state_filename) (load_factory ctx w).1.sys
        ≡ some (codec.encode_state c.state)
      → c.state.status ≢ created
      → (e : GoError) × (start_cmd ctx w
          ≡ (err e, (current_state (reloaded c) (get_container ctx w).1).1))
  start_cmd-stored storage c ctx w {root} named given rooted factory at faithful held other =
      let loaded =
        get_container-stored storage c ctx w named given rooted factory at faithful held in
      let (d, seen, not_created) = looked_at (reloaded c) (get_container ctx w).1 other in
      (start_cmd_lem ctx w loaded seen).0 not_created
