-- ===== src/Llcli/Delete/Polling.antt =====
-- What `delete` of llcli/delete.go does with a container, by what it finds.
use runnc.Base.{
  ℕ, zero, suc, ◌<◌, ◌≡◌, ◌≢◌, refl, ◌∙◌, ◌⊎◌, String, ◌<>◌, ◌∷◌, false, true, join, str_eq_iff,
  arith,
}
use runnc.Go.{ok, err, failed, GoError, text, generic, container_not_exists, is_not_exist}
use runnc.Os.{Os, World, M, ask, ◌>>◌, sleep, called, remove_all, open_read}
use runnc.Llif.{RunllcHandler}
use runnc.Libcontainer.State.{
  running, pausing, paused, status_string, state_filename, Container, Codec,
}
use runnc.Libcontainer.Hooks.{sigkill}
use runnc.Libcontainer.Container.{signal, current_state}
use runnc.Libcontainer.Factory.{load}
use runnc.Llcli.Context.{Context, first_arg}
use runnc.Llcli.Containers.{load_factory, get_container}
use runnc.Llcli.Runner.{destroy_container}
use runnc.Llcli.Delete.{await_death, kill_container, delete_cmd}

module _ ⦃os : Os⦄ ⦃codec : Codec⦄ where
  -- One round of the loop: a pause, and signal 0.
  pub poll : Container → M (Unit {0})
  poll c = do ask (sleep 100); signal c 0 false

  -- The process answered in each of so many rounds.
  pub Alive : ℕ → Container → World → Type 0
  Alive zero c w = Unit
  Alive (suc n) c w = ((poll c w).0 ≡ ok tt) × Alive n c (poll c w).1

  pub after_polls : ℕ → Container → World → World
  after_polls zero c w = w
  after_polls (suc n) c w = after_polls n c (poll c w).1

module _ ⦃os : Os⦄ (llc : RunllcHandler) ⦃codec : Codec⦄ where
  await_death_gone :
      (k n : ℕ) (c : Container) (w : World) {e : GoError}
      → k < n
      → Alive k c w
      → (poll c (after_polls k c w)).0 ≡ err e
      → await_death llc n c w ≡ destroy_container llc c (poll c (after_polls k c w)).1
  unfolding await_death poll after_polls Alive
  await_death_gone k zero c w lt a h = absurd (omega arith)
  await_death_gone zero (suc n) c w lt a h = ground arith
  await_death_gone (suc k) (suc n) c w {e = e} lt a h =
      let rest = await_death_gone k n c (poll c w).1 {e = e} (omega arith) a.1 h in ground arith

  await_death-Alive :
      (n : ℕ) (c : Container) (w : World)
      → Alive n c w
      → await_death llc n c w ≡ (err (text "container init still running"), after_polls n c w)
  unfolding await_death poll after_polls Alive
  await_death-Alive zero c w a = refl
  await_death-Alive (suc n) c w a = ground (arith, await_death-Alive n c (poll c w).1)

  kill_container_polls :
      (c : Container) (w : World)
      → kill_container llc c w ≡ await_death llc 100 c (signal c sigkill false w).1
  unfolding kill_container signal
  kill_container_polls c w = ground arith

  -- After the kill signal, whose error is dropped: if the process answers k < 100 rounds of polling
  -- and not the next one, the container is destroyed there; if it answers all hundred, the container
  -- is not destroyed and there is an error.
  pub kill_container_lem :
      (c : Container) (w : World)
      → let v = (signal c sigkill false w).1 in
        ((k : ℕ) (e : GoError)
          → k < 100
          → Alive k c v
          → (poll c (after_polls k c v)).0 ≡ err e
          → kill_container llc c w ≡ destroy_container llc c (poll c (after_polls k c v)).1)
        × (Alive 100 c v
            → kill_container llc c w
              ≡ (err (text "container init still running"), after_polls 100 c v))
  kill_container_lem c w =
      let v = (signal c sigkill false w).1 in
      (
        λ k e lt a h. kill_container_polls c w ∙ await_death_gone k 100 c v {e = e} lt a h,
        λ a. kill_container_polls c w ∙ await_death-Alive 100 c v a,
      )

  -- A container that is running, pausing or paused is not deleted without `--force`: no call follows
  -- those that found its state.
  delete_cmd_refused :
      (ctx : Context) (w : World) {c d : Container}
      → ctx.force ≡ false
      → (get_container ctx w).0 ≡ ok c
      → (current_state c (get_container ctx w).1).0 ≡ ok d
      → (d.state.status ≡ running) ⊎ ((d.state.status ≡ pausing) ⊎ (d.state.status ≡ paused))
      → (e : GoError) × (delete_cmd llc ctx w
          ≡ (err e, (current_state c (get_container ctx w).1).1))
  unfolding delete_cmd
  delete_cmd_refused ctx w {c} {d} f g s r = (
    text (
        "cannot delete container "
        <> (first_arg ctx.args <> (" that is not stopped: " <> status_string d.state.status))),
    ground arith,
  )

  -- If the state file of the argument, below the factory's root, does not exist, then, whatever
  -- text the argument is, everything below the root joined with it is removed, by the last call, and
  -- the error is that the container does not exist: the argument is not validated as an id.
  pub delete_cmd_missing :
      (ctx : Context) (w : World) {root : String} {e : GoError} {u : os.Sys}
      → first_arg ctx.args ≢ ""
      → (load_factory ctx w).0 ≡ ok root
      → root ≢ ""
      → let id = first_arg ctx.args in
        let state_path = join (join root id) state_filename in
        os.answer (open_read state_path) (load_factory ctx w).1.sys ≡ (failed e, u)
        → is_not_exist e ≡ true
        → ((delete_cmd llc ctx w).0
            ≡ err (
                generic container_not_exists "" (text ("container " <> (id <> " does not exist")))))
          × ((delete_cmd llc ctx w).1.trace
              ≡ called (remove_all (join ctx.root id))
                ∷ called (open_read state_path)
                ∷ (load_factory ctx w).1.trace)
  unfolding delete_cmd get_container load
  delete_cmd_missing ctx w {root} n at given h missing =
      let a = str_eq_iff (first_arg ctx.args) "" in
      let b = str_eq_iff root "" in (ground arith, ground arith)
