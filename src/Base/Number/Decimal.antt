-- ===== src/Base/Number/Decimal.antt =====
-- A number that is printed reads back as itself: masks, signals, descriptors and device numbers pass
-- as text.
use Prim.Native.Nat.{ℕ, zero, suc, ◌+◌, ◌-◌, ◌*◌, ◌/◌, ◌%◌, ◌<◌, ◌≤◌}
use Prim.Native.String.{String, ◌++◌ as ◌<>◌}
use mathlib.Core.Path.{◌≡◌, refl, sym, ap, subst, ◌∙◌}
use mathlib.Core.Logic.{◌⊎◌, inl, inr, ◌≢◌}
use mathlib.Core.Bool.{true}
use mathlib.Core.Option.{some}
use mathlib.Core.List.{List, [], ◌∷◌, ◌++◌}
use native.Mathlib.Omega.{arith}
use native.Mathlib.Decide.{dec_lt}
use runnc.Base.Text.{codes, codes-append}
use runnc.Base.Number.{pos, itoa, itoa_loop, digit, atoi, atoi_codes, atoi_loop, is_digit}

codes-digit : (d : ℕ) → d < 10 → codes (digit d) ≡ (48 + d) ∷ []
unfolding digit
codes-digit zero h = refl
codes-digit (suc zero) h = refl
codes-digit (suc (suc zero)) h = refl
codes-digit (suc (suc (suc zero))) h = refl
codes-digit (suc (suc (suc (suc zero)))) h = refl
codes-digit (suc (suc (suc (suc (suc zero))))) h = refl
codes-digit (suc (suc (suc (suc (suc (suc zero)))))) h = refl
codes-digit (suc (suc (suc (suc (suc (suc (suc zero))))))) h = refl
codes-digit (suc (suc (suc (suc (suc (suc (suc (suc zero)))))))) h = refl
codes-digit (suc (suc (suc (suc (suc (suc (suc (suc (suc zero))))))))) h = refl
codes-digit (suc (suc (suc (suc (suc (suc (suc (suc (suc (suc n)))))))))) h = absurd (omega arith)

codes-digit_append : (d : ℕ) (out : String) → d < 10 → codes (digit d <> out) ≡ (48 + d) ∷ codes out
codes-digit_append d out h = codes-append (digit d) out ∙ ap (λ s. s ++ codes out) (codes-digit d h)

itoa_last : (fuel n : ℕ) (out : String) → n < 10 → itoa_loop (suc fuel) n out ≡ digit n <> out
unfolding itoa_loop
itoa_last fuel n out h = ground arith

itoa_more :
    (fuel n : ℕ) (out : String)
    → 10 ≤ n
    → itoa_loop (suc fuel) n out ≡ itoa_loop fuel (n / 10) (digit (n % 10) <> out)
unfolding itoa_loop
itoa_more fuel n out h = ground arith

last_or_more : (n : ℕ) → (n < 10) ⊎ (10 ≤ n)
last_or_more n = elim (dec_lt n 10) [ yes h ↦ inl h | no h ↦ inr (omega arith) ]

-- A text that begins with a digit.
record Begins (s : List ℕ) : Type 0 where
  first : ℕ
  rest : List ℕ
  splits : s ≡ first ∷ rest
  low : 48 ≤ first
  high : first ≤ 57

loop-Begins : (fuel n : ℕ) (out : String) → n < fuel → Begins (codes (itoa_loop fuel n out))
loop-Begins zero n out h = absurd (omega arith)
loop-Begins (suc fuel) n out h = elim (last_or_more n) [
  | inl last ↦ record {
    first = 48 + n;
    rest = codes out;
    splits = ap codes (itoa_last fuel n out last) ∙ codes-digit_append n out last;
    low = omega arith;
    high = omega arith;
  }
  | inr more ↦
      subst (λ t. Begins (codes t)) (sym (itoa_more fuel n out more))
        (loop-Begins fuel (n / 10) (digit (n % 10) <> out) (omega arith))
]

digit_is_digit : (d : ℕ) → d < 10 → is_digit (48 + d) ≡ true
unfolding is_digit
digit_is_digit d h = ground arith

reads_digit :
    (d n : ℕ) (s : List ℕ) → d < 10 → atoi_loop ((48 + d) ∷ s) n ≡ atoi_loop s (n * 10 + d)
unfolding atoi_loop
reads_digit d n s h =
    let same : n * 10 + (48 + d - 48) ≡ n * 10 + d = omega arith in
    rw (digit_is_digit d h) (ap (atoi_loop s) same)

-- Reading the digits of a number goes on from that number.
loop-itoa_loop :
    (fuel n : ℕ) (out : String)
    → n < fuel
    → atoi_loop (codes (itoa_loop fuel n out)) 0 ≡ atoi_loop (codes out) n
loop-itoa_loop zero n out h = absurd (omega arith)
loop-itoa_loop (suc fuel) n out h = elim (last_or_more n) [
  | inl last ↦
      ap (λ t. atoi_loop (codes t) 0) (itoa_last fuel n out last)
      ∙ ap (λ s. atoi_loop s 0) (codes-digit_append n out last)
      ∙ reads_digit n 0 (codes out) last
      ∙ ap (atoi_loop (codes out)) (omega arith)
  | inr more ↦
      let d = n % 10 in
      let m = n / 10 in
      let small : d < 10 = omega arith in
      let whole : m * 10 + d ≡ n = omega arith in
      ap (λ t. atoi_loop (codes t) 0) (itoa_more fuel n out more)
      ∙ loop-itoa_loop fuel m (digit d <> out) (omega arith)
      ∙ ap (λ s. atoi_loop s m) (codes-digit_append d out small)
      ∙ reads_digit d m (codes out) small
      ∙ ap (atoi_loop (codes out)) whole
]

reads_pos :
    (c : ℕ) (s : List ℕ) (n : ℕ)
    → 48 ≤ c
    → c ≤ 57
    → atoi_loop (c ∷ s) 0 ≡ some n
    → n < 9223372036854775808
    → atoi_codes (c ∷ s) ≡ some (pos n)
unfolding atoi_codes
reads_pos c s n low high h lt = ground arith

-- A printed number that an `int` holds reads back.
pub atoi-itoa : (n : ℕ) → n < 9223372036854775808 → atoi (itoa n) ≡ some (pos n)
unfolding atoi itoa
atoi-itoa n h =
    let b = loop-Begins (suc n) n "" (omega arith) in
    let r : atoi_loop (codes (itoa_loop (suc n) n "")) 0 ≡ some n =
      loop-itoa_loop (suc n) n "" (omega arith) in
    ap atoi_codes b.splits
    ∙ reads_pos b.first b.rest n b.low b.high (ap (λ s. atoi_loop s 0) (sym b.splits) ∙ r) h

-- Decimal digits and nothing else.
abbrev pub IsDigits : List ℕ → Type 0
IsDigits [] = Unit
IsDigits (c ∷ s) = (48 ≤ c) × (c ≤ 57) × IsDigits s

loop-IsDigits :
    (fuel n : ℕ) (out : String)
    → IsDigits (codes out)
    → n < fuel
    → IsDigits (codes (itoa_loop fuel n out))
loop-IsDigits zero n out i h = absurd (omega arith)
loop-IsDigits (suc fuel) n out i h = elim (last_or_more n) [
  | inl last ↦
      subst IsDigits (sym (ap codes (itoa_last fuel n out last) ∙ codes-digit_append n out last))
        (omega arith, omega arith, i)
  | inr more ↦
      let small : n % 10 < 10 = omega arith in
      subst (λ t. IsDigits (codes t)) (sym (itoa_more fuel n out more))
        (loop-IsDigits fuel (n / 10) (digit (n % 10) <> out)
          (subst IsDigits (sym (codes-digit_append (n % 10) out small))
            (omega arith, omega arith, i))
          (omega arith))
]

-- A number is printed with digits.
pub itoa-IsDigits : (n : ℕ) → IsDigits (codes (itoa n))
unfolding itoa
itoa-IsDigits n = loop-IsDigits (suc n) n "" tt (omega arith)

pub itoa-ne-nil : (n : ℕ) → codes (itoa n) ≢ []
unfolding itoa
itoa-ne-nil n h =
    let b = loop-Begins (suc n) n "" (omega arith) in
    let clash : b.first ∷ b.rest ≡ [] = sym b.splits ∙ h in ground arith
