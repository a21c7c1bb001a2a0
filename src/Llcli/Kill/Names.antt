-- ===== src/Llcli/Kill/Names.antt =====
-- Which signals `parseSignal` of llcli/kill.go gives.
use runnc.Base.{
  ℕ, ◌≡◌, refl, ◌<◌, String, ℤ, pos, negsuc, Option, none, some, List, [], ◌∷◌, true, codes, atoi,
  itoa, atoi-itoa, Bool-cases, inl, inr, ◌↔◌, arith,
}
use runnc.Go.{ok}
use runnc.Llcli.Kill.{
  signal_map, signal_named, trim_sig, to_upper, is_signal, signal_by_number, signal_by_name,
  parse_signal,
}

signal_named-is_signal :
    (name : List ℕ) (m : List (String × ℕ)) {n : ℕ}
    → signal_named name m ≡ some n
    → is_signal n m ≡ true
unfolding signal_named is_signal
signal_named-is_signal name [] h = ground arith
signal_named-is_signal name ((k, v) ∷ m) {n = n} h =
    ground (arith, signal_named-is_signal name m {n = n})

signal_by_number-is_signal :
    (raw : String) (i : ℤ) {n : ℕ} → signal_by_number raw i ≡ ok n → is_signal n signal_map ≡ true
unfolding signal_by_number
signal_by_number-is_signal raw (pos k) {n = n} h = elim (Bool-cases (is_signal k signal_map)) [
  | inl known ↦ ground arith
  | inr unknown ↦ ground arith
]
signal_by_number-is_signal raw (negsuc k) h = ground arith

signal_by_name-is_signal :
    (raw : String) {n : ℕ} → signal_by_name raw ≡ ok n → is_signal n signal_map ≡ true
unfolding signal_by_name
signal_by_name-is_signal raw {n = n} h =
    ground (arith, signal_named-is_signal (trim_sig (to_upper (codes raw))) signal_map {n = n})

given :
    (raw : String) (i : Option ℤ) {n : ℕ}
    → atoi raw ≡ i
    → parse_signal raw ≡ ok n
    → is_signal n signal_map ≡ true
unfolding parse_signal signal_by_number
given raw (some i) e h = signal_by_number-is_signal raw i (ground arith)
given raw none e h = signal_by_name-is_signal raw (ground arith)

-- What `parseSignal` gives is the number of a signal of the table, and the text of a number that an
-- `int` holds is accepted exactly if it is one of these, as that number.
parse_signal_lem :
    (raw : String) (n : ℕ)
    → (parse_signal raw ≡ ok n → is_signal n signal_map ≡ true)
      × (n < 9223372036854775808 → (parse_signal (itoa n) ≡ ok n) ↔ (is_signal n signal_map ≡ true))
unfolding parse_signal signal_by_number
parse_signal_lem raw n = (
  λ h. given raw (atoi raw) refl h,
  λ lt. (
    λ h. given (itoa n) (atoi (itoa n)) refl h,
    λ known. rw (parse_signal, atoi-itoa n lt) (rw known refl),
  ),
)
