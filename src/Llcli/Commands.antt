-- ===== src/Llcli/Commands.antt =====
-- llcli/create.go, start.go, state.go, init.go and exec.go: the actions of the other commands.
pub mod Starting
pub mod Creating
pub mod Restarting
pub mod Reporting
pub mod Later
pub mod Frame
pub mod Stored
pub mod History
use runnc.Base.{
  ℕ, suc, String, ◌<>◌, ℤ, pos, negsuc, neg, Option, none, some, List, [], Bool, true, ◌-◌, ◌%◌,
  if◌then◌else◌,
}
use runnc.Go.{Reply, done, failed, GoError, text, Outcome, exited, panicked}
use runnc.Os.{Os, World, M, ask, attempt, pure, raise, halt, ◌>>=◌, ◌>>◌}
use runnc.Configs.{Spec}
use runnc.Llif.{RunllcHandler}
use runnc.Libcontainer.State.{
  Status, created, running, pausing, paused, stopped, status_string, Container, Codec,
}
use runnc.Libcontainer.Container.{exec, current_state}
use runnc.Libcontainer.Init.{init_nabla}
use runnc.Llcli.Context.{Context}
use runnc.Llcli.Spec.{setup_spec}
use runnc.Llcli.Containers.{get_container, start_container}

-- `containerState`
pub record ContainerState : Type 0 where
  pub version : String
  pub id : String
  pub init_process_pid : ℕ
  pub status : String
  pub bundle : String
  pub rootfs : String
  pub created_at : ℕ

-- The low eight bits of an exit status, which is what the parent sees.
pub exit_code : ℤ → ℕ
exit_code (pos n) = n % 256
exit_code (negsuc n) = 255 - n % 256

module _ ⦃os : Os⦄ where
  -- `fatal`
  or_fatal : {A : Type 0} → M A → M A
  or_fatal m = do r ← attempt m; elim r [ done a ↦ pure a | failed e ↦ halt (exited 1) ]

  -- The action of `newExecCmd`
  unfoldable pub exec_cmd : Context → M (Unit {0})
  exec_cmd ctx = raise (text "OCI Exec Not Implemented")

  module _ ⦃codec : Codec⦄ where
    start_by_status : Container → Status → M (Unit {0})
    start_by_status c created = do (c', e) ← exec c; elim e [ none ↦ pure tt | some e ↦ raise e ]
    start_by_status c stopped = raise (text "cannot start a container that has stopped")
    start_by_status c running = raise (text "cannot start an already running container")
    start_by_status c s =
        raise (text ("cannot start a container in the " <> (status_string s <> " state")))

    -- The action of `newStartCmd`
    unfoldable pub start_cmd : Context → M (Unit {0})
    unfolding start_by_status
    start_cmd ctx = do
      c ← get_container ctx
      c' ← current_state c
      start_by_status c' c'.state.status

    -- The action of `newStateCmd`: what it prints. `search_labels` is that of runc.
    unfoldable pub state_cmd : (List String → String → String) → Context → M ContainerState
    unfolding or_fatal
    state_cmd search_labels ctx = do
      c ← or_fatal (get_container ctx)
      s ← or_fatal (current_state c)
      c' ← or_fatal (current_state s)
      pure (record {
        version = c'.state.config.version;
        id = c'.state.id;
        init_process_pid = c'.state.init_process_pid;
        status = status_string c'.state.status;
        bundle = search_labels c'.state.config.labels "bundle";
        rootfs = c'.state.config.rootfs;
        created_at = c'.state.created_at;
      })

    module _ (llc : RunllcHandler) where
      -- The action of `newCreateCmd`: it ends the process.
      unfoldable pub create_cmd :
          (String → Reply (Option Spec)) → ℕ → List ℕ → Context → M (Unit {0})
      unfolding or_fatal exit_code
      create_cmd decode_spec fuel signals ctx = do
        spec ← or_fatal (setup_spec decode_spec ctx.bundle)
        (status, e) ← start_container llc fuel signals ctx spec true
        elim e [ some _ ↦ halt (exited 1) | none ↦ halt (exited (exit_code status)) ]

      -- The action of `newInitCmd`
      unfoldable pub init_cmd : (ℕ → String → String → String) → M (Unit {0})
      init_cmd marshal = do
        r ← attempt (init_nabla marshal llc)
        elim r [
          | failed e ↦ halt (exited 1)
          | done _ ↦ halt (panicked "libcontainer: container init failed to exec")
        ]
