-- ===== src/Llcli/Tty/Copying/Waits.antt =====
-- When `Close` of llcli/util_tty.go comes to its end.
use runnc.Base.{
  ℕ, zero, suc, ◌+◌, ◌<◌, ◌≤◌, ◌≡◌, ◌≢◌, refl, sym, ◌∙◌, ◌⊎◌, inl, inr, List, [], ◌∷◌, arith,
}
use runnc.Llcli.Tty.Copying.{
  Routine, copying, draining, copied, closed, finished, Closing, still_open, waiting, all_closed,
  Copies, repeated, start_copies, Goes, here, there, CopyStep, container_closes, copy_fails,
  copy_ends, source_closes, reports, close_begins, wait_ends, Reach, start, step,
}

-- What a routine has still to do, and whether it is among those that are counted.
rank : Routine → ℕ
rank copying = 4
rank draining = 3
rank copied = 2
rank closed = 1
rank finished = 0

counted : Routine → ℕ
counted finished = 0
counted _ = 1

is_open : Routine → ℕ
is_open copying = 1
is_open _ = 0

abbrev sum_of : (Routine → ℕ) → List Routine → ℕ
sum_of f [] = 0
sum_of f (r ∷ rs) = f r + sum_of f rs

left_of : Closing → ℕ
left_of still_open = 2
left_of waiting = 1
left_of all_closed = 0

-- All that is still to be done.
pub work_left : Copies → ℕ
unfolding rank left_of
work_left s = sum_of rank s.routines + left_of s.closing

pub unfinished : Copies → ℕ
unfolding counted
unfinished s = sum_of counted s.routines

-- How many of the container's ends are open.
pub open_ends : Copies → ℕ
unfolding is_open
open_ends s = sum_of is_open s.routines

-- So many steps from one state to another.
pub data Run : ℕ → Copies → Copies → Type 0 where
  no_step : {s : Copies} → Run 0 s s
  one_more : {k : ℕ} {s t u : Copies} → Run k s t → CopyStep t u → Run (suc k) s u

Goes-sum :
    {from to : Routine} (f : Routine → ℕ) {rs ss : List Routine}
    → Goes from to rs ss
    → sum_of f rs + f to ≡ sum_of f ss + f from
Goes-sum f here = omega arith
Goes-sum f (there g) = omega (arith, Goes-sum f g)

CopyStep-counts : (s t : Copies) → CopyStep s t → s.count ≡ unfinished s → t.count ≡ unfinished t
unfolding unfinished counted
CopyStep-counts _ _ (container_closes g) h = omega (arith, Goes-sum counted g)
CopyStep-counts _ _ (copy_fails g) h = omega (arith, Goes-sum counted g)
CopyStep-counts _ _ (copy_ends g) h = omega (arith, Goes-sum counted g)
CopyStep-counts _ _ (source_closes g) h = omega (arith, Goes-sum counted g)
CopyStep-counts _ _ (reports g) h = omega (arith, Goes-sum counted g)
CopyStep-counts _ _ close_begins h = h
CopyStep-counts _ _ wait_ends h = h

CopyStep-works : (s t : Copies) → CopyStep s t → work_left t < work_left s
unfolding work_left rank left_of
CopyStep-works _ _ (container_closes g) = omega (arith, Goes-sum rank g)
CopyStep-works _ _ (copy_fails g) = omega (arith, Goes-sum rank g)
CopyStep-works _ _ (copy_ends g) = omega (arith, Goes-sum rank g)
CopyStep-works _ _ (source_closes g) = omega (arith, Goes-sum rank g)
CopyStep-works _ _ (reports g) = omega (arith, Goes-sum rank g)
CopyStep-works _ _ close_begins = omega arith
CopyStep-works _ _ wait_ends = omega arith

CopyStep-closed :
    (s t : Copies)
    → CopyStep s t
    → (s.closing ≡ all_closed → s.count ≡ 0)
    → t.closing ≡ all_closed
    → t.count ≡ 0
CopyStep-closed _ _ (container_closes g) h e = h e
CopyStep-closed _ _ (copy_fails g) h e = h e
CopyStep-closed _ _ (copy_ends g) h e = h e
CopyStep-closed _ _ (source_closes g) h e = h e
CopyStep-closed _ _ (reports g) h e = let z = h e in absurd (omega arith)
CopyStep-closed _ _ close_begins h e = ground arith
CopyStep-closed _ _ wait_ends h e = refl

start_copies-counts : (n : ℕ) → n ≡ unfinished (start_copies n)
unfolding start_copies repeated unfinished counted
start_copies-counts zero = refl
start_copies-counts (suc n) = let rest = start_copies-counts n in omega arith

Reach-counts : (n : ℕ) (s : Copies) → Reach n s → s.count ≡ unfinished s
unfolding start_copies
Reach-counts n _ start = start_copies-counts n
Reach-counts n _ (step {s} {t} r m) = CopyStep-counts s t m (Reach-counts n s r)

Reach-closed : (n : ℕ) (s : Copies) → Reach n s → s.closing ≡ all_closed → s.count ≡ 0
unfolding start_copies
Reach-closed n _ start e = ground arith
Reach-closed n _ (step {s} {t} r m) e = CopyStep-closed s t m (Reach-closed n s r) e

CopyStep-opens : (s t : Copies) → CopyStep s t → open_ends s ≡ 0 → open_ends t ≡ 0
unfolding open_ends is_open
CopyStep-opens _ _ (container_closes g) h = omega (arith, Goes-sum is_open g)
CopyStep-opens _ _ (copy_fails g) h = omega (arith, Goes-sum is_open g)
CopyStep-opens _ _ (copy_ends g) h = omega (arith, Goes-sum is_open g)
CopyStep-opens _ _ (source_closes g) h = omega (arith, Goes-sum is_open g)
CopyStep-opens _ _ (reports g) h = omega (arith, Goes-sum is_open g)
CopyStep-opens _ _ close_begins h = h
CopyStep-opens _ _ wait_ends h = h

-- A routine whose source is closed and that is not finished can go on.
next :
    (rs : List Routine)
    → sum_of is_open rs ≡ 0
    → (sum_of counted rs ≡ 0)
      ⊎ ((ss : List Routine) × (Goes draining copied rs ss
            ⊎ (Goes copied closed rs ss ⊎ Goes closed finished rs ss)))
unfolding counted is_open
next [] h = inl refl
next (copying ∷ rs) h = absurd (omega arith)
next (draining ∷ rs) h = inr (copied ∷ rs, inl here)
next (copied ∷ rs) h = inr (closed ∷ rs, inr (inl here))
next (closed ∷ rs) h = inr (finished ∷ rs, inr (inr here))
next (finished ∷ rs) h = elim (next rs (omega arith)) [
  | inl none_left ↦ inl (omega arith)
  | inr (ss, inl g) ↦ inr (finished ∷ ss, inl (there g))
  | inr (ss, inr (inl g)) ↦ inr (finished ∷ ss, inr (inl (there g)))
  | inr (ss, inr (inr g)) ↦ inr (finished ∷ ss, inr (inr (there g)))
]

goes_on :
    (rs : List Routine) (n : ℕ) (c : Closing)
    → n ≡ sum_of counted rs
    → sum_of is_open rs ≡ 0
    → c ≢ all_closed
    → (t : Copies) × CopyStep (record { routines = rs; count = n; closing = c }) t
goes_on rs n still_open h o e = (_, close_begins)
goes_on rs n all_closed h o e = absurd (e refl)
goes_on rs zero waiting h o e = (_, wait_ends)
goes_on rs (suc n) waiting h o e = elim (next rs o) [
  | inl none_left ↦ absurd (omega arith)
  | inr (ss, inl g) ↦ (_, copy_ends g)
  | inr (ss, inr (inl g)) ↦ (_, source_closes g)
  | inr (ss, inr (inr g)) ↦ (_, reports g)
]

Run-lem :
    (n k : ℕ) (s t : Copies)
    → Reach n s
    → open_ends s ≡ 0
    → Run k s t
    → Reach n t × (open_ends t ≡ 0) × (k + work_left t ≤ work_left s)
Run-lem n _ _ _ r h no_step = (r, h, omega arith)
Run-lem n _ _ _ r h (one_more {k} {s} {t} {u} run m) =
    let (reached, opens, less) = Run-lem n k s t r h run in
    (step reached m, CopyStep-opens t u m opens, omega (arith, CopyStep-works t u m))

-- In whichever order the goroutines run: when `Close` has closed our ends of the pipes, each of them
-- is finished with its own. Once the container's ends are closed, no run is longer than what was left
-- to do, and none stops before `Close` has come to its end.
pub close_waits :
    (n : ℕ) (s : Copies)
    → Reach n s
    → (s.closing ≡ all_closed → unfinished s ≡ 0)
      × ((k : ℕ) (t : Copies)
          → open_ends s ≡ 0
          → Run k s t
          → (k + work_left t ≤ work_left s)
            × (t.closing ≢ all_closed → (u : Copies) × CopyStep t u))
unfolding unfinished open_ends
close_waits n s r = (
  λ e. sym (Reach-counts n s r) ∙ Reach-closed n s r e,
  λ k t h run.
      let (reached, opens, less) = Run-lem n k s t r h run in
      (less, λ e. goes_on t.routines t.count t.closing (Reach-counts n t reached) opens e),
)
