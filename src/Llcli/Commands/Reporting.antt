-- ===== src/Llcli/Commands/Reporting.antt =====
-- What `state` of llcli/state.go prints.
use runnc.Base.{◌≡◌}
use runnc.Go.{done}
use runnc.Os.{Os, World, signal_process}
use runnc.Libcontainer.State.{Container, Codec}
use runnc.Llcli.Context.{Context}

module _ ⦃os : Os⦄ ⦃codec : Codec⦄ where
  -- Does the container's process answer in this world?
  abbrev pub Answers : Container → World → Type 0
  Answers c w = (os.answer (signal_process c.state.init_process_pid 0) w.sys).0 ≡ done tt
