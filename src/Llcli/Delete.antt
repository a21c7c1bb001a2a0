-- ===== src/Llcli/Delete.antt =====
-- llcli/delete.go
pub mod Polling
pub mod Torn
use runnc.Base.{
  ℕ, zero, suc, String, ◌<>◌, Option, none, some, Bool, true, false, join, if◌then◌else◌,
}
use runnc.Go.{Reply, done, failed, GoError, text, ErrorCode, container_not_exists}
use runnc.Os.{Os, World, M, ask, must, attempt, pure, raise, ◌>>=◌, ◌>>◌, sleep, remove_all}
use runnc.Llif.{RunllcHandler}
use runnc.Libcontainer.Errors.{code_of}
use runnc.Libcontainer.State.{
  Status, created, running, pausing, paused, stopped, status_string, Container, Codec,
}
use runnc.Libcontainer.Hooks.{sigkill}
use runnc.Libcontainer.Container.{signal, current_state}
use runnc.Llcli.Context.{Context, first_arg}
use runnc.Llcli.Runner.{destroy_container}
use runnc.Llcli.Containers.{get_container}

-- `lerr.Code() == libcontainer.ContainerNotExists`
abbrev is_missing_code : Option ErrorCode → Bool
is_missing_code (some container_not_exists) = true
is_missing_code _ = false

module _ ⦃os : Os⦄ (llc : RunllcHandler) ⦃codec : Codec⦄ where
  -- The loop of `killContainer`: until signal 0 fails, at most so many times.
  unfoldable pub await_death : ℕ → Container → M (Unit {0})
  await_death zero c = raise (text "container init still running")
  await_death (suc n) c = do
    ask (sleep 100)
    r ← attempt (signal c 0 false)
    elim r [ failed e ↦ destroy_container llc c | done _ ↦ await_death n c ]

  -- `killContainer`
  unfoldable pub kill_container : Container → M (Unit {0})
  kill_container c = do attempt (signal c sigkill false); await_death 100 c

  -- A container without a state file: its directory goes, and the error is returned.
  delete_missing : Context → GoError → M (Unit {0})
  delete_missing ctx e =
      if is_missing_code (code_of e)
      then (do ask (remove_all (join ctx.root (first_arg ctx.args))); raise e)
      else raise e

  -- The `switch` over the status.
  delete_by_status : Context → Container → Status → M (Unit {0})
  delete_by_status ctx c stopped = destroy_container llc c
  delete_by_status ctx c created = kill_container c
  delete_by_status ctx c s =
      if ctx.force
      then kill_container c
      else raise (
          text (
            "cannot delete container "
            <> (first_arg ctx.args <> (" that is not stopped: " <> status_string s))))

  delete_found : Context → Container → M (Unit {0})
  unfolding delete_by_status
  delete_found ctx c = do c' ← current_state c; delete_by_status ctx c' c'.state.status

  -- The action of `newDeleteCmd`
  unfoldable pub delete_cmd : Context → M (Unit {0})
  unfolding delete_missing delete_found
  delete_cmd ctx = do
    r ← attempt (get_container ctx)
    elim r [ failed e ↦ delete_missing ctx e | done c ↦ delete_found ctx c ]
