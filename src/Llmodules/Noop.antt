-- ===== src/Llmodules/Noop.antt =====
-- llmodules/fs/noop_storage.go and llmodules/network/noop_network.go
use runnc.Base.{some, []}
use runnc.Os.{Os, ask, must, pure, ◌>>◌, remove_all}
use runnc.Llif.{LlState, FsHandler, NetworkHandler}

abbrev no_state : LlState
no_state = record { options = []; in_memory_objects = [] }

module _ ⦃os : Os⦄ where
  abbrev pub noop_fs_handler : FsHandler
  noop_fs_handler = record {
    fs_create_func = λ i. pure (some no_state);
    fs_run_func = λ i. pure i.fs_state;
    fs_destroy_func = λ i. do
      must (ask (remove_all i.container_root))
      pure i.fs_state;
  }

  abbrev pub noop_network_handler : NetworkHandler
  noop_network_handler = record {
    network_create_func = λ i. pure (some no_state);
    network_run_func = λ i. pure i.network_state;
    network_destroy_func = λ i. pure i.network_state;
  }
