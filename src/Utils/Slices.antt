-- ===== src/Utils/Slices.antt =====
-- What `AddAbsentSlice` of utils/slice.go keeps and adds.
use runnc.Base.{
  ℕ, ◌≡◌, refl, ◌≢◌, String, List, [], ◌∷◌, true, false, str_eq, str_eq_iff, count, count-append,
  Bool-cases, inl, inr, arith,
}
use runnc.Utils.{has_element, add_absent_slice}

-- How often a text stands in a slice.
abbrev pub occurrences : String → List String → ℕ
occurrences s slice = count (str_eq s) slice

has_element-occurrences :
    (slice : List String) (add : String)
    → (has_element slice add ≡ false → occurrences add slice ≡ 0)
      × (has_element slice add ≡ true → occurrences add slice ≢ 0)
unfolding has_element
has_element-occurrences [] add = (λ h. refl, λ h. ground arith)
has_element-occurrences (v ∷ slice) add =
    let rest = has_element-occurrences slice add in (λ h. ground arith, λ h. ground arith)

-- The added text stands in the slice afterwards, once if it was not there and as often as before if
-- it was; every other text stands in it as often as before.
add_absent_slice_lem :
    (slice : List String) (add : String)
    → (occurrences add slice ≡ 0 → occurrences add (add_absent_slice slice add) ≡ 1)
      × (occurrences add slice ≢ 0 → add_absent_slice slice add ≡ slice)
      × ((s : String) → s ≢ add → occurrences s (add_absent_slice slice add) ≡ occurrences s slice)
unfolding add_absent_slice
add_absent_slice_lem slice add =
    let here = has_element-occurrences slice add in
    let self = (str_eq_iff add add).1 refl in
    elim (Bool-cases (has_element slice add)) [
      | inl present ↦ (λ h. absurd (here.1 present h), λ h. rw present refl, λ s h. rw present refl)
      | inr absent ↦ (
        λ h. rw absent (ground (arith, count-append (str_eq add) slice (add ∷ []), here.0 absent)),
        λ h. absurd (h (here.0 absent)),
        λ s h.
            rw absent (ground (arith, count-append (str_eq s) slice (add ∷ []), str_eq_iff s add)),
      )
    ]
