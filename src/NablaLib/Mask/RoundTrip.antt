-- ===== src/NablaLib/Mask/RoundTrip.antt =====
-- `mask.Size()` against the masks that `net.CIDRMask` gives.
use mathlib.Core.Bool.{Bool}
use mathlib.Core.Path.{subst}
use runnc.Base.{
  ℕ, zero, suc, ◌+◌, ◌-◌, ◌*◌, ◌^◌, ◌≤◌, ◌<◌, ◌≡◌, refl, List, [], ◌∷◌, ltb, if◌then◌else◌, length,
  arith, Option, none, some, ◌==◌, Bool-cases, inl, inr,
}
use runnc.NablaLib.Mask.{
  leading_ones, all_zero, mask_length, mask_size, mask_cidr, add_ones, size_of,
}

-- A byte with `k` ones in front, and a mask of so many bytes with `n` ones in front.
abbrev pub ones_byte : ℕ → ℕ
ones_byte k = 256 - 2 ^ (8 - k)

abbrev pub cidr_mask : ℕ → ℕ → List ℕ
cidr_mask zero n = []
cidr_mask (suc bytes) n =
    if ltb n 8 then ones_byte n ∷ cidr_mask bytes 0 else 255 ∷ cidr_mask bytes (n - 8)

all_zero-cidr_mask : (bytes : ℕ) → all_zero (cidr_mask bytes 0) ≡ Bool.true
unfolding all_zero
all_zero-cidr_mask zero = refl
all_zero-cidr_mask (suc bytes) = all_zero-cidr_mask bytes

leading_ones-ones_byte : (k : ℕ) → k < 8 → leading_ones (ones_byte k) ≡ some k
unfolding leading_ones
leading_ones-ones_byte zero h = refl
leading_ones-ones_byte (suc zero) h = refl
leading_ones-ones_byte (suc (suc zero)) h = refl
leading_ones-ones_byte (suc (suc (suc zero))) h = refl
leading_ones-ones_byte (suc (suc (suc (suc zero)))) h = refl
leading_ones-ones_byte (suc (suc (suc (suc (suc zero))))) h = refl
leading_ones-ones_byte (suc (suc (suc (suc (suc (suc zero)))))) h = refl
leading_ones-ones_byte (suc (suc (suc (suc (suc (suc (suc zero))))))) h = refl
leading_ones-ones_byte (suc (suc (suc (suc (suc (suc (suc (suc k)))))))) h = absurd (omega arith)

ones_byte-lt : (k : ℕ) → k < 8 → (ones_byte k == 255) ≡ Bool.false
ones_byte-lt zero h = refl
ones_byte-lt (suc zero) h = refl
ones_byte-lt (suc (suc zero)) h = refl
ones_byte-lt (suc (suc (suc zero))) h = refl
ones_byte-lt (suc (suc (suc (suc zero)))) h = refl
ones_byte-lt (suc (suc (suc (suc (suc zero))))) h = refl
ones_byte-lt (suc (suc (suc (suc (suc (suc zero)))))) h = refl
ones_byte-lt (suc (suc (suc (suc (suc (suc (suc zero))))))) h = refl
ones_byte-lt (suc (suc (suc (suc (suc (suc (suc (suc k)))))))) h = absurd (omega arith)

mask_length-cidr_mask : (bytes n : ℕ) → n ≤ 8 * bytes → mask_length (cidr_mask bytes n) ≡ some n
unfolding mask_length
mask_length-cidr_mask zero n h = ground arith
mask_length-cidr_mask (suc bytes) n h = elim (Bool-cases (ltb n 8)) [
  | inl few ↦ rw few (
      ground (
        arith,
        all_zero-cidr_mask bytes,
        leading_ones-ones_byte n (ground arith),
        ones_byte-lt n (ground arith),
      ))
  | inr many ↦ rw many (ground (arith, mask_length-cidr_mask bytes (n - 8) (ground arith)))
]

length-cidr_mask : (bytes n : ℕ) → length (cidr_mask bytes n) ≡ bytes
length-cidr_mask zero n = refl
length-cidr_mask (suc bytes) n =
    ground (arith, length-cidr_mask bytes 0, length-cidr_mask bytes (n - 8))

-- The mask of so many bytes with n ones in front, as CIDR notation gives it, has the size n out of
-- all its bits.
pub mask_size-cidr_mask :
    (bytes n : ℕ) → n ≤ 8 * bytes → mask_size (cidr_mask bytes n) ≡ (n, 8 * bytes)
unfolding mask_size
mask_size-cidr_mask bytes n h =
    ground (arith, mask_length-cidr_mask bytes n h, length-cidr_mask bytes n)

Bounded : ℕ → Option ℕ → Type 0
Bounded most none = Unit
Bounded most (some n) = n ≤ most

ones-Bounded : (b most : ℕ) → 8 ≤ most → Bounded most (leading_ones b)
unfolding leading_ones Bounded
ones-Bounded b most h = ground arith

add_ones-Bounded : (k most : ℕ) (o : Option ℕ) → Bounded most o → Bounded (k + most) (add_ones k o)
unfolding Bounded add_ones
add_ones-Bounded k most none h = tt
add_ones-Bounded k most (some n) h = omega arith

if-Bounded :
    (b : Bool) (most : ℕ) (o p : Option ℕ)
    → Bounded most o
    → Bounded most p
    → Bounded most (if b then o else p)
if-Bounded Bool.true most o p h k = h
if-Bounded Bool.false most o p h k = k

mask_length-Bounded : (mask : List ℕ) → Bounded (8 * length mask) (mask_length mask)
unfolding mask_length Bounded
mask_length-Bounded [] = omega arith
mask_length-Bounded (b ∷ mask) =
    let whole : 8 + 8 * length mask ≡ 8 * length (b ∷ mask) = omega arith in
    if-Bounded (b == 255) (8 * length (b ∷ mask)) _ _
      (subst (λ m. Bounded m (add_ones 8 (mask_length mask))) whole
        (add_ones-Bounded 8 (8 * length mask) (mask_length mask) (mask_length-Bounded mask)))
      (if-Bounded (all_zero mask) (8 * length (b ∷ mask)) _ _
        (ones-Bounded b (8 * length (b ∷ mask)) (omega arith)) tt)

-- Whatever bytes the mask has, and whether or not they are a mask at all, the length that goes into
-- the options is at most the number of its bits: 32 for an IPv4 mask of four bytes.
pub mask_cidr-bounded : (mask : List ℕ) → mask_cidr mask ≤ 8 * length mask
unfolding mask_size size_of Bounded
mask_cidr-bounded mask = of_length (mask_length mask) (mask_length-Bounded mask)
  where
    of_length : (o : Option ℕ) → Bounded (8 * length mask) o → (size_of mask o).0 ≤ 8 * length mask
    of_length none h = omega arith
    of_length (some n) h = h
