-- ===== src/Base/Text.antt =====
-- The functions of Go's package strings that the program calls. A text is walked by its
-- characters, which are its bytes where it is ASCII.
use Prim.Native.Nat.{ℕ, zero, suc, ◌+◌, min}
use Prim.Native.Char.{code}
use Prim.Native.String.{String, ◌++◌ as ◌<>◌}
use mathlib.Core.Path.{◌≡◌, refl, ap}
use mathlib.Core.Bool.{Bool, true, false, ◌&&◌}
use mathlib.Core.List.{List, [], ◌∷◌, ◌++◌, reverse}
use Prim.Native.String.append
use native.Mathlib.Omega.{arith}
use runnc.Base.Tests.{◌==◌}

-- The character codes of a text.
abbrev pub codes : String → List ℕ
codes String.[] = []
codes (String.◌∷◌ c s) = code c ∷ codes s

-- `len(s)`
abbrev pub text_len : String → ℕ
text_len String.[] = 0
text_len (String.◌∷◌ c s) = suc (text_len s)

-- `s[:n]`, for `n` within the text.
abbrev pub text_take : ℕ → String → String
text_take zero s = ""
text_take (suc n) String.[] = ""
text_take (suc n) (String.◌∷◌ c s) = String.◌∷◌ c (text_take n s)

-- `s[n:]`, for `n` within the text.
abbrev pub text_drop : ℕ → String → String
text_drop zero s = s
text_drop (suc n) String.[] = ""
text_drop (suc n) (String.◌∷◌ c s) = text_drop n s

-- `s[:len(s)-1]`
abbrev pub text_init : String → String
text_init String.[] = ""
text_init (String.◌∷◌ c String.[]) = ""
text_init (String.◌∷◌ c (String.◌∷◌ d s)) = String.◌∷◌ c (text_init (String.◌∷◌ d s))

abbrev pub is_prefix_of : List ℕ → List ℕ → Bool
is_prefix_of [] s = true
is_prefix_of (c ∷ p) [] = false
is_prefix_of (c ∷ p) (d ∷ s) = c == d && is_prefix_of p s

-- `strings.HasPrefix(s, prefix)`
abbrev pub has_prefix : String → String → Bool
has_prefix s prefix = is_prefix_of (codes prefix) (codes s)

-- `strings.HasSuffix(s, suffix)`
unfoldable pub has_suffix : String → String → Bool
has_suffix s suffix = is_prefix_of (reverse (codes suffix)) (reverse (codes s))

-- `strings.Join(parts, sep)`
abbrev pub join_with : String → List String → String
join_with sep [] = ""
join_with sep (s ∷ []) = s
join_with sep (s ∷ t ∷ rest) = s <> (sep <> join_with sep (t ∷ rest))

pub text_len-text_take : (n : ℕ) (s : String) → text_len (text_take n s) ≡ min n (text_len s)
text_len-text_take zero s = omega arith
text_len-text_take (suc n) String.[] = omega arith
text_len-text_take (suc n) (String.◌∷◌ c s) = omega (arith, text_len-text_take n s)

pub text_len-append : (s t : String) → text_len (s <> t) ≡ text_len s + text_len t
text_len-append String.[] t = rw append.nil (omega arith)
text_len-append (String.◌∷◌ c s) t = rw append.cons (omega (arith, text_len-append s t))

pub codes-append : (s t : String) → codes (s <> t) ≡ codes s ++ codes t
codes-append String.[] t = rw append.nil refl
codes-append (String.◌∷◌ c s) t = rw append.cons (ap (λ r. code c ∷ r) (codes-append s t))

-- A prefix that reaches into the second of two texts.
pub text_take-append :
    (s t : String) (n k : ℕ) → k ≡ text_len s + n → text_take k (s <> t) ≡ s <> text_take n t
text_take-append String.[] t n k e = simp append.nil (ap (λ j. text_take j t) (omega arith))
text_take-append (String.◌∷◌ c s) t n zero e = absurd (omega arith)
text_take-append (String.◌∷◌ c s) t n (suc k) e =
    simp append.cons (ap (String.◌∷◌ c) (text_take-append s t n k (omega arith)))
