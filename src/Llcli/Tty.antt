-- ===== src/Llcli/Tty.antt =====
-- llcli/util_tty.go, `dupStdio` of llcli/util_nabla.go, and `setupIO` of llcli/util_runner.go. The
-- goroutines that copy run beside the rest of the program: Tty/Copying has them.
pub mod Copying
use runnc.Base.{
  ℕ, String, Option, none, some, List, [], ◌∷◌, ◌++◌, Bool, ◌&&◌, str_eq, if◌then◌else◌,
}
use runnc.Go.{text}
use runnc.Os.{
  Os, M, ask, must, wrapping, pure, raise, ◌>>=◌, ◌>>◌, close, copy, fchown, set_raw_terminal,
  restore_terminal, resize_console,
}
use runnc.Libcontainer.Console.Interface.{new_process_console}
use runnc.Libcontainer.Process.{Process, console_from_path, initialize_io}

-- `tty`: the master of the console, the state of the terminal, and what is to be closed.
pub record Tty : Type 0 where
  pub console : Option ℕ
  pub state : Option ℕ
  pub closers : List ℕ
  pub post_start : List ℕ

abbrev pub no_tty : Tty
no_tty = record { console = none; state = none; closers = []; post_start = [] }

-- The descriptors among the process's three files.
present : Option ℕ → List ℕ
present none = []
present (some fd) = fd ∷ []

module _ ⦃os : Os⦄ where
  -- `createTty`
  unfoldable pub create_tty : Process → ℕ → ℕ → String → M (Process × Tty)
  unfolding present
  create_tty p uid gid console_path =
      if str_eq console_path ""
      then (do
        (p', console) ← new_process_console p uid gid
        state ← wrapping "failed to set the terminal from the stdin" (must (ask set_raw_terminal))
        pure (
          p',
          record {
            console = console.master;
            state = some state;
            closers = present console.master;
            post_start = [];
          },
        ))
      else do p' ← λ w. (console_from_path p console_path, w); pure (p', no_tty)

  -- `copyIO`, in a goroutine of its own; its report to the wait group is in Copying.
  unfoldable pub copy_io : ℕ → ℕ → M (Unit {0})
  copy_io w r = do ask (copy w r); ask (close r); pure tt

  -- `createStdioPipes`
  unfoldable pub create_stdio_pipes : Process → ℕ → ℕ → M (Process × Tty)
  unfolding present
  create_stdio_pipes p uid gid = do
    (p', io) ← initialize_io p uid gid
    pure (
      p',
      record {
        console = none;
        state = none;
        closers = io.in_end ∷ io.out_end ∷ io.err_end ∷ [];
        post_start = present p'.stdin ++ (present p'.stdout ++ present p'.stderr);
      },
    )

  -- `dupStdio`
  unfoldable pub dup_stdio : Process → ℕ → ℕ → M Process
  dup_stdio p uid gid = do
    must (ask (fchown 0 uid gid))
    must (ask (fchown 1 uid gid))
    must (ask (fchown 2 uid gid))
    pure (record p { stdin = some 0; stdout = some 1; stderr = some 2 })

  -- `setupIO`
  unfoldable pub setup_io : Process → ℕ → ℕ → String → Bool → Bool → M (Process × Tty)
  setup_io p uid gid console make_tty detach =
      if make_tty && detach && str_eq console ""
      then raise (text "cannot allocate tty if runc will detach")
      else if make_tty
      then create_tty p uid gid console
      else if detach
      then (do p' ← dup_stdio p uid gid; pure (p', no_tty))
      else create_stdio_pipes p uid gid

  unfoldable pub close_fds : List ℕ → M (Unit {0})
  close_fds [] = pure tt
  close_fds (fd ∷ fds) = do ask (close fd); close_fds fds

  -- `ClosePostStart`
  unfoldable pub close_post_start : Tty → M (Unit {0})
  unfolding close_fds
  close_post_start t = close_fds t.post_start

  restore : Option ℕ → M (Unit {0})
  restore none = pure tt
  restore (some state) = do ask (restore_terminal state); pure tt

  -- `Close`
  unfoldable pub close_tty : Tty → M (Unit {0})
  unfolding close_fds restore
  close_tty t = do close_fds t.post_start; close_fds t.closers; restore t.state

  -- `resize`, whose error every caller drops.
  unfoldable pub resize : Tty → M (Unit {0})
  resize t = elim t.console [ none ↦ pure tt | some fd ↦ do ask (resize_console fd); pure tt ]
