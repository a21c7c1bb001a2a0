-- ===== src/Libcontainer/Console.antt =====
-- libcontainer/console_nabla.go: the methods of `linuxConsole`.
pub mod Mounting
pub mod Interface
use runnc.Base.{
  ℕ, ◌-◌, ◌^◌, String, ◌<>◌, Option, none, some, List, [], ◌∷◌, itoa, join, if◌then◌else◌,
}
use runnc.Go.{Reply, done, failed, GoError, text, wrap, is_exist}
use runnc.Os.{
  Os, M, ask, must, wrapping, deferring, pure, raise, ◌>>=◌, ◌>>◌, close, create, write, umask,
  open_ptmx, pts_number, unlock_pts, chmod, chown, read, open_flags, dup3, set_file_label, mount,
}

-- `linuxConsole`: the descriptor of the master, if there is one, and the path of the slave.
pub record LinuxConsole : Type 0 where
  pub master : Option ℕ
  pub slave_path : String

-- `newConsoleFromPath`
unfoldable pub new_console_from_path : String → LinuxConsole
new_console_from_path slave_path = record { master = none; slave_path = slave_path }

-- `Fd`: that of a nil file is the largest `uintptr`.
unfoldable pub fd_of : LinuxConsole → ℕ
fd_of c = elim c.master [ none ↦ 2 ^ 64 - 1 | some fd ↦ fd ]

-- `Path`
unfoldable pub path_of : LinuxConsole → String
path_of c = c.slave_path

-- `os.ErrInvalid`, the error of the methods of a nil file.
abbrev err_invalid : GoError
err_invalid = text "invalid argument"

abbrev pub o_rdwr : ℕ
o_rdwr = 2

abbrev pub ms_bind : ℕ
ms_bind = 4096

module _ ⦃os : Os⦄ where
  -- `ptsname` and `unlockpt`
  unfoldable pub ptsname : ℕ → M String
  ptsname master = do n ← must (ask (pts_number master)); pure ("/dev/pts/" <> itoa n)

  unfoldable pub unlockpt : ℕ → M (Unit {0})
  unlockpt master = must (ask (unlock_pts master))

  -- `NewConsole`: mode 0600.
  unfoldable pub new_console : ℕ → ℕ → M LinuxConsole
  unfolding ptsname unlockpt
  new_console uid gid = do
    master ← must (ask open_ptmx)
    path ← ptsname master
    unlockpt master
    must (ask (chmod path 384))
    must (ask (chown path uid gid))
    pure (record { master = some master; slave_path = path })

  -- `Read`, `Write` and `Close`
  unfoldable pub read_console : LinuxConsole → M String
  read_console c = elim c.master [ none ↦ raise err_invalid | some fd ↦ must (ask (read fd)) ]

  unfoldable pub write_console : LinuxConsole → String → M (Unit {0})
  write_console c s = elim c.master [ none ↦ raise err_invalid | some fd ↦ must (ask (write fd s)) ]

  unfoldable pub close_console : LinuxConsole → M (Unit {0})
  close_console c = elim c.master [ none ↦ pure tt | some fd ↦ must (ask (close fd)) ]

  -- The file to mount on: it may be there already.
  made_target : Reply ℕ → M (Unit {0})
  made_target (done fd) = do ask (close fd); pure tt
  made_target (failed e) = if is_exist e then pure tt else raise e

  label_and_mount : LinuxConsole → String → String → M (Unit {0})
  unfolding made_target
  label_and_mount c rootfs mount_label = do
    must (ask (set_file_label c.slave_path mount_label))
    let dest = join rootfs "/dev/console"
    f ← ask (create dest)
    made_target f
    must (ask (mount c.slave_path dest "bind" ms_bind))

  -- `mount`
  unfoldable pub mount_console : LinuxConsole → String → String → M (Unit {0})
  unfolding label_and_mount
  mount_console c rootfs mount_label = do
    old_mask ← ask (umask 0)
    deferring (ask (umask old_mask)) (label_and_mount c rootfs mount_label)

  -- `open`: a clone of `os.OpenFile` without O_CLOEXEC.
  unfoldable pub open_slave : LinuxConsole → ℕ → M ℕ
  open_slave c flag =
      wrapping ("open " <> (c.slave_path <> ": ")) (must (ask (open_flags c.slave_path flag)))

  dup_to : ℕ → List ℕ → M (Unit {0})
  dup_to fd [] = pure tt
  dup_to fd (i ∷ rest) = do must (ask (dup3 fd i 0)); dup_to fd rest

  -- `dupStdio`
  unfoldable pub dup_console : LinuxConsole → M (Unit {0})
  unfolding open_slave dup_to
  dup_console c = do slave ← open_slave c o_rdwr; dup_to slave (0 ∷ 1 ∷ 2 ∷ [])
