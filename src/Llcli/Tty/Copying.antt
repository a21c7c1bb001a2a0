-- ===== src/Llcli/Tty/Copying.antt =====
-- The goroutines of `createStdioPipes` (llcli/util_tty.go), which copy the container's output, and the
-- wait for them in `Close`, as a step relation. The copy of the input, which is not waited for, is
-- not among them.
pub mod Waits
use runnc.Base.{ℕ, zero, suc, List, [], ◌∷◌}

-- Where a call of `copyIO` is: in `io.Copy` while the container's end of the pipe is open, and after
-- it has been closed, before `r.Close()`, before the deferred `t.wg.Done()`, or past it.
pub data Routine : Type 0 where
  copying draining copied closed finished : Routine

-- Where `Close` is: not called, waiting after the descriptors for the container are closed, or done.
pub data Closing : Type 0 where
  still_open waiting all_closed : Closing

-- The routines, the counter of the wait group, and `Close`.
pub record Copies : Type 0 where
  pub routines : List Routine
  pub count : ℕ
  pub closing : Closing

pub repeated : ℕ → List Routine
repeated zero = []
repeated (suc n) = copying ∷ repeated n

-- `t.wg.Add(n)`, and as many goroutines.
unfoldable pub start_copies : ℕ → Copies
unfolding repeated
start_copies n = record { routines = repeated n; count = n; closing = still_open }

-- One of the routines goes from one place to another.
pub data Goes (from to : Routine) : List Routine → List Routine → Type 0 where
  here : {rest : List Routine} → Goes from to (from ∷ rest) (to ∷ rest)
  there : {r : Routine} {rs ss : List Routine} → Goes from to rs ss → Goes from to (r ∷ rs) (r ∷ ss)

-- While the container's end of its pipe is open, `io.Copy` blocks, and ends only when our copy fails.
pub data CopyStep : Copies → Copies → Type 0 where
  container_closes :
      {rs ss : List Routine} {n : ℕ} {c : Closing}
      → Goes copying draining rs ss
      → CopyStep
          (record { routines = rs; count = n; closing = c })
          (record { routines = ss; count = n; closing = c })
  copy_fails :
      {rs ss : List Routine} {n : ℕ} {c : Closing}
      → Goes copying copied rs ss
      → CopyStep
          (record { routines = rs; count = n; closing = c })
          (record { routines = ss; count = n; closing = c })
  copy_ends :
      {rs ss : List Routine} {n : ℕ} {c : Closing}
      → Goes draining copied rs ss
      → CopyStep
          (record { routines = rs; count = n; closing = c })
          (record { routines = ss; count = n; closing = c })
  source_closes :
      {rs ss : List Routine} {n : ℕ} {c : Closing}
      → Goes copied closed rs ss
      → CopyStep
          (record { routines = rs; count = n; closing = c })
          (record { routines = ss; count = n; closing = c })
  reports :
      {rs ss : List Routine} {n : ℕ} {c : Closing}
      → Goes closed finished rs ss
      → CopyStep
          (record { routines = rs; count = suc n; closing = c })
          (record { routines = ss; count = n; closing = c })
  close_begins :
      {rs : List Routine} {n : ℕ}
      → CopyStep
          (record { routines = rs; count = n; closing = still_open })
          (record { routines = rs; count = n; closing = waiting })
  wait_ends :
      {rs : List Routine}
      → CopyStep
          (record { routines = rs; count = zero; closing = waiting })
          (record { routines = rs; count = zero; closing = all_closed })

pub data Reach (n : ℕ) : Copies → Type 0 where
  start : Reach n (start_copies n)
  step : {s t : Copies} → Reach n s → CopyStep s t → Reach n t
