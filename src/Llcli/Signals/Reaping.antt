-- ===== src/Llcli/Signals/Reaping.antt =====
-- What `reap` and `forward` of llcli/util_signal.go return when children have exited.
use runnc.Base.{◌≡◌, ℤ, pos, lt_ℤ, List, [], ◌∷◌, true, false}
use runnc.Go.{done, failed, errno, echild}
use runnc.Os.{Os, wait4}
use runnc.Libcontainer.Process.{Process}
use runnc.Llcli.Tty.{Tty}
use runnc.Llcli.Signals.{Exit}

module _ ⦃os : Os⦄ where
  -- The exits that the system has to report: until there is no child, or none that has exited.
  pub data Waits : os.Sys → List Exit → Type 0 where
    no_child : {s t : os.Sys} → os.answer wait4 s ≡ (failed (errno echild), t) → Waits s []
    no_exit :
        {s t : os.Sys} {pid status : ℤ}
        → os.answer wait4 s ≡ (done (pid, status), t)
        → lt_ℤ (pos 0) pid ≡ false
        → Waits s []
    exit :
        {s t : os.Sys} {pid status : ℤ} {exits : List Exit}
        → os.answer wait4 s ≡ (done (pid, status), t)
        → lt_ℤ (pos 0) pid ≡ true
        → Waits t exits
        → Waits s (record { pid = pid; status = status } ∷ exits)
