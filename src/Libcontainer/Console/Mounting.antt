-- ===== src/Libcontainer/Console/Mounting.antt =====
-- What `mount` and `dupStdio` of libcontainer/console_nabla.go do to the process.
use runnc.Base.{ℕ, ◌≡◌, String, List, [], ◌∷◌, arith}
use runnc.Go.{ok}
use runnc.Os.{Os, World, Event, called, handed, Call, Ret, umask, open_flags, dup3, >>=-eq-ok}
use runnc.Libcontainer.Console.{
  LinuxConsole, mount_console, dup_console, open_slave, dup_to, o_rdwr,
}

-- The masks that were set, the newest first.
abbrev mask_set : {r : Ret} → Call r → List ℕ → List ℕ
mask_set (umask m) rest = m ∷ rest
mask_set _ rest = rest

abbrev pub masks : List Event → List ℕ
masks [] = []
masks (called c ∷ events) = mask_set c (masks events)
masks (handed h ∷ events) = masks events

module _ ⦃os : Os⦄ (c : LinuxConsole) where
  -- Whether the console can be mounted or not, and at whichever step it fails, `mount` sets the mask
  -- twice: to 0, and then back to the old one.
  mount_console-masks :
      (rootfs mount_label : String) (w : World) {old : ℕ} {s : os.Sys}
      → os.answer (umask 0) w.sys ≡ (old, s)
      → masks (mount_console c rootfs mount_label w).1.trace ≡ old ∷ 0 ∷ masks w.trace
  unfolding mount_console
  mount_console-masks rootfs mount_label w h = ground arith

  -- Where `dupStdio` succeeds it has opened the slave, and made each of the three standard files
  -- another name of it, with no other call.
  dup_console_trace :
      (w : World)
      → (dup_console c w).0 ≡ ok tt
      → (fd : ℕ) × ((dup_console c w).1.trace
          ≡ called (dup3 fd 2 0)
            ∷ called (dup3 fd 1 0)
            ∷ called (dup3 fd 0 0)
            ∷ called (open_flags c.slave_path o_rdwr)
            ∷ w.trace)
  unfolding dup_console open_slave dup_to
  dup_console_trace w h =
      let (fd, opened, rest) = >>=-eq-ok (open_slave c o_rdwr) _ w h in (fd, ground arith)
