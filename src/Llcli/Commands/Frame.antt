-- ===== src/Llcli/Commands/Frame.antt =====
-- The calls of a run that keep what the state file holds (llcli/start.go, state.go and kill.go).
use runnc.Base.{ℕ, ℤ, ◌≡◌, String, arith}
use runnc.Os.{Os, World, signal_process, kill, open_read, read_all, close, abs, mkdir_all}
use runnc.Libcontainer.State.{Codec}
use runnc.Libcontainer.Container.{signal}
use runnc.Libcontainer.Factory.{load, new_factory}
use runnc.Libcontainer.Factory.Load.{IsStorage}
use runnc.Llcli.Context.{Context}
use runnc.Llcli.Containers.{get_container, load_factory}
use runnc.Llcli.Kill.{kill_cmd}

-- Calls that look, and signals, keep what a file holds.
pub record IsHarmless (os : Os) (storage : IsStorage os) (path : String) : Type 0 where
  pub abs_keeps :
      (p : String) (s : os.Sys)
      → storage.content path (os.answer (abs p) s).1 ≡ storage.content path s
  pub mkdir_keeps :
      (p : String) (mode : ℕ) (s : os.Sys)
      → storage.content path (os.answer (mkdir_all p mode) s).1 ≡ storage.content path s
  pub open_keeps :
      (p : String) (s : os.Sys)
      → storage.content path (os.answer (open_read p) s).1 ≡ storage.content path s
  pub read_keeps :
      (f : ℕ) (s : os.Sys)
      → storage.content path (os.answer (read_all f) s).1 ≡ storage.content path s
  pub close_keeps :
      (f : ℕ) (s : os.Sys) → storage.content path (os.answer (close f) s).1 ≡ storage.content path s
  pub probe_keeps :
      (pid sig : ℕ) (s : os.Sys)
      → storage.content path (os.answer (signal_process pid sig) s).1 ≡ storage.content path s
  pub kill_keeps :
      (pid : ℤ) (sig : ℕ) (s : os.Sys)
      → storage.content path (os.answer (kill pid sig) s).1 ≡ storage.content path s

module _ ⦃os : Os⦄ ⦃codec : Codec⦄ (storage : IsStorage os) (path : String)
    (harmless : IsHarmless os storage path) where
  pub factory_keeps :
      (ctx : Context) (w : World)
      → storage.content path (load_factory ctx w).1.sys ≡ storage.content path w.sys
  unfolding load_factory new_factory
  factory_keeps ctx w = grind (arith, harmless.abs_keeps, harmless.mkdir_keeps)

  load_keeps :
      (root id : String) (w : World)
      → storage.content path (load root id w).1.sys ≡ storage.content path w.sys
  unfolding load
  load_keeps root id w =
      grind (arith, harmless.open_keeps, harmless.read_keeps, harmless.close_keeps)

  pub get_keeps :
      (ctx : Context) (w : World)
      → storage.content path (get_container ctx w).1.sys ≡ storage.content path w.sys
  unfolding get_container
  get_keeps ctx w = grind (arith, factory_keeps ctx w, load_keeps)

  pub kill_cmd_keeps :
      (ctx : Context) (w : World)
      → storage.content path (kill_cmd ctx w).1.sys ≡ storage.content path w.sys
  unfolding kill_cmd signal
  kill_cmd_keeps ctx w = grind (arith, get_keeps ctx w, harmless.kill_keeps)
