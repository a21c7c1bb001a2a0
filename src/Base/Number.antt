-- ===== src/Base/Number.antt =====
-- Signed numbers, and decimal text: `strconv.Itoa` and `strconv.Atoi`.
pub mod Decimal
use Prim.Native.Nat.{ℕ, zero, suc, ◌+◌, ◌-◌, ◌*◌, ◌/◌, ◌%◌}
use Prim.Native.String.{String, ◌++◌ as ◌<>◌}
use mathlib.Core.Bool.{Bool, true, false, ◌&&◌}
use mathlib.Core.Option.{Option, none, some}
use mathlib.Core.List.{List, [], ◌∷◌}
use runnc.Base.Tests.{ltb, leb, ◌==◌, if◌then◌else◌}
use runnc.Base.Text.{codes}

-- `negsuc n` is -(n + 1).
pub data ℤ : Type 0 where
  pos : ℕ → ℤ
  negsuc : ℕ → ℤ

abbrev pub neg : ℕ → ℤ
neg zero = pos zero
neg (suc n) = negsuc n

-- Go's `/` by a positive number rounds towards zero.
abbrev pub div_ℤ : ℤ → ℕ → ℤ
div_ℤ (pos n) d = pos (n / d)
div_ℤ (negsuc n) d = neg (suc n / d)

abbrev pub lt_ℤ : ℤ → ℤ → Bool
lt_ℤ (pos m) (pos n) = ltb m n
lt_ℤ (pos m) (negsuc n) = false
lt_ℤ (negsuc m) (pos n) = true
lt_ℤ (negsuc m) (negsuc n) = ltb n m

abbrev pub eq_ℤ : ℤ → ℤ → Bool
eq_ℤ (pos m) (pos n) = m == n
eq_ℤ (pos m) (negsuc n) = false
eq_ℤ (negsuc m) (pos n) = false
eq_ℤ (negsuc m) (negsuc n) = m == n

digit : ℕ → String
digit zero = "0"
digit (suc zero) = "1"
digit (suc (suc zero)) = "2"
digit (suc (suc (suc zero))) = "3"
digit (suc (suc (suc (suc zero)))) = "4"
digit (suc (suc (suc (suc (suc zero))))) = "5"
digit (suc (suc (suc (suc (suc (suc zero)))))) = "6"
digit (suc (suc (suc (suc (suc (suc (suc zero))))))) = "7"
digit (suc (suc (suc (suc (suc (suc (suc (suc zero)))))))) = "8"
digit _ = "9"

-- The digits of `n`; `n + 1` rounds are always enough, since each divides by ten.
itoa_loop : ℕ → ℕ → String → String
unfolding digit
itoa_loop zero n out = out
itoa_loop (suc fuel) n out =
    let more = itoa_loop fuel (n / 10) (digit (n % 10) <> out) in
    if ltb n 10 then digit n <> out else more

unfoldable pub itoa : ℕ → String
unfolding itoa_loop
itoa n = itoa_loop (suc n) n ""

unfoldable pub itoa_ℤ : ℤ → String
unfolding itoa
itoa_ℤ (pos n) = itoa n
itoa_ℤ (negsuc n) = "-" <> itoa (suc n)

is_digit : ℕ → Bool
is_digit c = leb b'0' c && leb c b'9'

atoi_loop : List ℕ → ℕ → Option ℕ
unfolding is_digit
atoi_loop [] n = some n
atoi_loop (c ∷ s) n =
    let rest = atoi_loop s (n * 10 + (c - b'0')) in if is_digit c then rest else none

atoi_digits : List ℕ → Option ℕ
unfolding atoi_loop
atoi_digits [] = none
atoi_digits (c ∷ s) = atoi_loop (c ∷ s) 0

-- `9223372036854775808`, past the largest `int`.
abbrev int_limit : ℕ
int_limit = 9223372036854775808

atoi_pos : Option ℕ → Option ℤ
atoi_pos none = none
atoi_pos (some n) = if ltb n int_limit then some (pos n) else none

atoi_neg : Option ℕ → Option ℤ
atoi_neg none = none
atoi_neg (some n) = if leb n int_limit then some (neg n) else none

unfoldable pub atoi_codes : List ℕ → Option ℤ
unfolding atoi_digits atoi_pos atoi_neg
atoi_codes [] = none
atoi_codes (c ∷ s) =
    if c == b'-'
    then atoi_neg (atoi_digits s)
    else if c == b'+'
    then atoi_pos (atoi_digits s)
    else atoi_pos (atoi_digits (c ∷ s))

-- `none` stands for the error, of syntax or of range.
unfoldable pub atoi : String → Option ℤ
unfolding atoi_codes
atoi s = atoi_codes (codes s)
