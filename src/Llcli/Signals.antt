-- ===== src/Llcli/Signals.antt =====
-- llcli/util_signal.go: the loop that forwards signals to the container's process.
pub mod Reaping
pub mod Relaying
use runnc.Base.{
  ℕ, zero, suc, ℤ, pos, neg, lt_ℤ, eq_ℤ, Option, none, some, List, [], ◌∷◌, ◌++◌, Bool, ◌==◌,
  if◌then◌else◌,
}
use runnc.Go.{Reply, done, failed, GoError, errno, echild, Outcome, out_of_fuel}
use runnc.Os.{Os, M, ask, attempt, pure, raise, halt, ◌>>=◌, ◌>>◌, wait4, kill, set_subreaper}
use runnc.Libcontainer.Process.{Process, pid_of, wait}
use runnc.Llcli.Tty.{Tty, resize}

-- `exit`
pub record Exit : Type 0 where
  pub pid : ℤ
  pub status : ℤ

abbrev pub sigchld : ℕ
sigchld = 17

abbrev pub sigwinch : ℕ
sigwinch = 28

-- The first exit of the container's process.
unfoldable pub exit_of : ℕ → List Exit → Option ℤ
exit_of pid1 [] = none
exit_of pid1 (e ∷ exits) = if eq_ℤ e.pid (pos pid1) then some e.status else exit_of pid1 exits

is_echild : GoError → Bool
is_echild (errno echild) = Bool.true
is_echild _ = Bool.false

module _ ⦃os : Os⦄ where
  -- `newSignalHandler`: the error of becoming the subreaper is logged.
  unfoldable pub new_signal_handler : Bool → M (Unit {0})
  new_signal_handler enable_subreaper =
      if enable_subreaper then (do ask set_subreaper; pure tt) else pure tt

  -- `reap`; the fuel bounds the number of exits that wait.
  unfoldable pub reap : ℕ → List Exit → M (List Exit)
  unfolding is_echild
  reap zero exits = halt out_of_fuel
  reap (suc fuel) exits = do
    r ← ask wait4
    elim r [
      | failed e ↦ if is_echild e then pure exits else raise e
      | done (pid, status) ↦
          let more = reap fuel (exits ++ (record { pid = pid; status = status } ∷ [])) in
          if lt_ℤ (pos 0) pid then more else pure exits
    ]

  -- On an error `reap` gives no exits, and the error is logged.
  or_no_exits : Reply (List Exit) → List Exit
  or_no_exits (done exits) = exits
  or_no_exits (failed e) = []

  -- The loop of `forward`, over the signals that arrive.
  unfoldable pub forward_loop : ℕ → Tty → Process → ℕ → List ℕ → M (ℤ × Option GoError)
  unfolding or_no_exits
  forward_loop fuel t p pid1 [] = pure (neg 1, none)
  forward_loop fuel t p pid1 (s ∷ signals) =
      let rest = forward_loop fuel t p pid1 signals in
      if s == sigwinch
      then (do resize t; rest)
      else if s == sigchld
      then (do
        exits ← attempt (reap fuel [])
        elim (exit_of pid1 (or_no_exits exits)) [
          | some status ↦ do attempt (wait p); pure (status, none)
          | none ↦ rest
        ])
      else do ask (kill (pos pid1) s); rest

  forward_from : ℕ → Tty → Process → List ℕ → Outcome ℕ → M (ℤ × Option GoError)
  forward_from fuel t p signals (Outcome.err e) = pure (neg 1, some e)
  forward_from fuel t p signals (Outcome.stop s) = halt s
  forward_from fuel t p signals (Outcome.ok pid1) = do resize t; forward_loop fuel t p pid1 signals

  -- `forward`
  unfoldable pub forward : ℕ → Tty → Process → List ℕ → M (ℤ × Option GoError)
  unfolding forward_from forward_loop
  forward fuel t p signals = forward_from fuel t p signals (pid_of p)
