-- ===== src/Llcli/Signals/Relaying.antt =====
-- What the loop of `forward` (llcli/util_signal.go) does with the signals that are not its own.
use runnc.Base.{
  ℕ, ◌≡◌, refl, pos, List, [], ◌∷◌, ◌++◌, Bool, true, false, ◌==◌, ◌||◌, if◌then◌else◌, arith,
}
use runnc.Os.{Os, World, Event, ask, called, kill}
use runnc.Libcontainer.Process.{Process}
use runnc.Llcli.Tty.{Tty}
use runnc.Llcli.Signals.{forward_loop, sigchld, sigwinch}

-- Signals that are neither of a child nor of the window.
abbrev pub are_relayed : List ℕ → Bool
are_relayed [] = true
are_relayed (s ∷ signals) = if s == sigwinch || s == sigchld then false else are_relayed signals

module _ ⦃os : Os⦄ where
  -- The world after each of the signals was sent to a process, in order, and what it records.
  abbrev pub relayed : ℕ → List ℕ → World → World
  relayed pid [] w = w
  relayed pid (s ∷ signals) w = relayed pid signals (ask (kill (pos pid) s) w).1

  abbrev pub sent : ℕ → List ℕ → List Event → List Event
  sent pid [] trace = trace
  sent pid (s ∷ signals) trace = sent pid signals (called (kill (pos pid) s) ∷ trace)

  -- Signals that are neither of a child nor of the window are sent to the container's process, each
  -- once and in the order in which they came, whether or not the sending succeeds, and no other call
  -- is made; then the loop goes on with the signals that follow.
  pub forward_loop-relays :
      (fuel : ℕ) (t : Tty) (p : Process) (pid1 : ℕ) (first rest : List ℕ) (w : World)
      → are_relayed first ≡ true
      → let v = relayed pid1 first w in
        (forward_loop fuel t p pid1 (first ++ rest) w ≡ forward_loop fuel t p pid1 rest v)
        × (v.trace ≡ sent pid1 first w.trace)
  unfolding forward_loop
  forward_loop-relays fuel t p pid1 [] rest w h = (refl, refl)
  forward_loop-relays fuel t p pid1 (s ∷ first) rest w h =
      let v = (ask (kill (pos pid1) s) w).1 in
      let others : are_relayed first ≡ true = ground arith in
      let (goes_on, recorded) = forward_loop-relays fuel t p pid1 first rest v others in
      (ground arith, recorded)
