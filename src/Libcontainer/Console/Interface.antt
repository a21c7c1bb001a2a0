-- ===== src/Libcontainer/Console/Interface.antt =====
-- The interface `Console` of libcontainer/console.go, which `linuxConsole` fills, and `NewConsole`
-- of libcontainer/process.go, which makes a console for a process.
use runnc.Base.{ℕ, String}
use runnc.Os.{Os, M, pure, ◌>>=◌}
use runnc.Libcontainer.Process.{Process}
use runnc.Libcontainer.Console.{
  LinuxConsole, new_console, read_console, write_console, close_console, path_of, fd_of,
}

-- `Console`, of the type `C`.
pub record Console ⦃os : Os⦄ (C : Type 0) : Type 0 where
  pub read : C → M String
  pub write : C → String → M (Unit {0})
  pub close : C → M (Unit {0})
  pub path : C → String
  pub fd : C → ℕ

module _ ⦃os : Os⦄ where
  abbrev pub linux_console : Console LinuxConsole
  linux_console = record {
    read = read_console;
    write = write_console;
    close = close_console;
    path = path_of;
    fd = fd_of;
  }

  -- The method `NewConsole` of `Process`
  unfoldable pub new_process_console : Process → ℕ → ℕ → M (Process × LinuxConsole)
  unfolding path_of
  new_process_console p uid gid = do
    console ← new_console uid gid
    pure (record p { console_path = path_of console }, console)
