-- ===== src/NablaLib/Mask.antt =====
-- `MaskCIDR` of nabla-lib/network/network_linux.go, and `IPMask.Size` of the Go library under it.
pub mod RoundTrip
use runnc.Base.{
  ℕ, zero, suc, ◌+◌, ◌-◌, ◌*◌, ◌≤◌, ◌≡◌, refl, Option, none, some, List, [], ◌∷◌, Bool, true, false,
  ◌&&◌, ◌==◌, ltb, length, if◌then◌else◌, arith, String,
}
use runnc.Go.{Reply}
use runnc.Os.{Addr}

-- The parts of package net, and of netlink, that read and print addresses.
pub record Net : Type 0 where
  pub ip_string : List ℕ → String
  pub parse_ip : String → Option (List ℕ)
  pub parse_cidr : String → Reply (List ℕ × List ℕ)
  pub parse_mac : String → Reply (List ℕ)
  pub parse_addr : String → Reply Addr

-- The one bits in front of a byte that has no other one bit.
leading_ones : ℕ → Option ℕ
leading_ones b =
    if b == 255
    then some 8
    else if b == 254
    then some 7
    else if b == 252
    then some 6
    else if b == 248
    then some 5
    else if b == 240
    then some 4
    else if b == 224
    then some 3
    else if b == 192
    then some 2
    else if b == 128
    then some 1
    else if b == 0
    then some 0
    else none

all_zero : List ℕ → Bool
all_zero [] = true
all_zero (b ∷ mask) = b == 0 && all_zero mask

add_ones : ℕ → Option ℕ → Option ℕ
add_ones n none = none
add_ones n (some k) = some (n + k)

-- After the first byte that is not 255 all must be zero.
mask_length : List ℕ → Option ℕ
unfolding leading_ones all_zero add_ones
mask_length [] = some 0
mask_length (b ∷ mask) =
    let rest = mask_length mask in
    if b == 255 then add_ones 8 rest else if all_zero mask then leading_ones b else none

size_of : List ℕ → Option ℕ → ℕ × ℕ
size_of mask none = (0, 0)
size_of mask (some n) = (n, 8 * length mask)

-- `mask.Size()`: the ones and all the bits, or 0 and 0.
unfoldable pub mask_size : List ℕ → ℕ × ℕ
unfolding mask_length size_of
mask_size mask = size_of mask (mask_length mask)

-- `MaskCIDR`
abbrev pub mask_cidr : List ℕ → ℕ
mask_cidr mask = (mask_size mask).0
