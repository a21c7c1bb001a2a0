-- ===== src/NablaLib/Macvtap/Numbers.antt =====
-- How nabla-lib/network/network_linux.go reads the device numbers of a macvtap from sysfs.
use mathlib.Core.Path.{subst}
use mathlib.Core.List.{reverse, reverse-cons, reverse-append, reverse-reverse}
use runnc.Base.{
  ℕ, ◌≤◌, ◌<◌, ◌^◌, ◌%◌, ◌≡◌, ◌≢◌, refl, sym, ap, ◌∙◌, String, ◌<>◌, some, List, [], ◌∷◌, ◌++◌, pos,
  itoa, codes, codes-append, IsDigits, itoa-IsDigits, atoi_codes, atoi-itoa, atoi, itoa-ne-nil,
  arith,
}
use runnc.Go.{done}
use runnc.Os.{Os, World, ask, must, called, read_file, mknod}
use runnc.NablaLib.Macvtap.{
  Macvtap, split_colon, add_code, trim_left, trim_space, is_space, make_tap_node,
}

IsDigits-append : (s t : List ℕ) → IsDigits s → IsDigits t → IsDigits (s ++ t)
IsDigits-append [] t i j = j
IsDigits-append (c ∷ s) t (low, high, i) j = (low, high, IsDigits-append s t i j)

reverse-IsDigits : (s : List ℕ) → IsDigits s → IsDigits (reverse s)
reverse-IsDigits [] i = tt
reverse-IsDigits (c ∷ s) (low, high, i) =
    subst IsDigits (sym (reverse-cons c s))
      (IsDigits-append (reverse s) (c ∷ []) (reverse-IsDigits s i) (low, high, tt))

joins :
    (c : ℕ) (s : List ℕ) (rest : List (List ℕ)) → c ≤ 57 → add_code c (s ∷ rest) ≡ (c ∷ s) ∷ rest
unfolding add_code
joins c s rest h = ground arith

-- No text is cut where it has no colon.
split_colon-newline :
    (s : List ℕ) → IsDigits s → split_colon (s ++ (10 ∷ [])) ≡ (s ++ (10 ∷ [])) ∷ []
unfolding split_colon add_code
split_colon-newline [] i = refl
split_colon-newline (c ∷ s) (low, high, i) =
    ap (add_code c) (split_colon-newline s i) ∙ joins c (s ++ (10 ∷ [])) [] high

split_colon-IsDigits :
    (s part : List ℕ) (t : List ℕ)
    → IsDigits s
    → split_colon t ≡ part ∷ []
    → split_colon (s ++ (58 ∷ t)) ≡ s ∷ part ∷ []
unfolding split_colon add_code
split_colon-IsDigits [] part t i h = ap (add_code 58) h
split_colon-IsDigits (c ∷ s) part t (low, high, i) h =
    ap (add_code c) (split_colon-IsDigits s part t i h) ∙ joins c s (part ∷ []) high

trim_left-IsDigits : (s : List ℕ) → IsDigits s → trim_left s ≡ s
unfolding trim_left is_space
trim_left-IsDigits [] i = refl
trim_left-IsDigits (c ∷ s) (low, high, i) = ground arith

starts_with_digit : (s t : List ℕ) → s ≢ [] → IsDigits s → trim_left (s ++ t) ≡ s ++ t
unfolding trim_left is_space
starts_with_digit [] t n i = absurd (n refl)
starts_with_digit (c ∷ s) t n (low, high, i) = ground arith

trim_space-IsDigits : (s : List ℕ) → IsDigits s → trim_space s ≡ s
unfolding trim_space
trim_space-IsDigits s i =
    ap (λ t. reverse (trim_left (reverse t))) (trim_left-IsDigits s i)
    ∙ ap reverse (trim_left-IsDigits (reverse s) (reverse-IsDigits s i))
    ∙ reverse-reverse s

drops_newline : (s : List ℕ) → trim_left (10 ∷ s) ≡ trim_left s
unfolding trim_left is_space
drops_newline s = refl

trim_space-newline : (s : List ℕ) → s ≢ [] → IsDigits s → trim_space (s ++ (10 ∷ [])) ≡ s
unfolding trim_space
trim_space-newline s n i =
    ap (λ t. reverse (trim_left (reverse t))) (starts_with_digit s (10 ∷ []) n i)
    ∙ ap (λ t. reverse (trim_left t)) (reverse-append s (10 ∷ []))
    ∙ ap reverse (drops_newline (reverse s))
    ∙ ap reverse (trim_left-IsDigits (reverse s) (reverse-IsDigits s i))
    ∙ reverse-reverse s

-- What sysfs shows of a device.
abbrev pub device_text : ℕ → ℕ → String
device_text major minor = itoa major <> (":" <> (itoa minor <> "\n"))

device_parts :
    (major minor : ℕ)
    → split_colon (codes (device_text major minor))
      ≡ codes (itoa major) ∷ (codes (itoa minor) ++ (10 ∷ [])) ∷ []
device_parts major minor =
    ap split_colon (
      codes-append (itoa major) (":" <> (itoa minor <> "\n"))
      ∙ ap (λ s. codes (itoa major) ++ s)
          (codes-append ":" (itoa minor <> "\n")
            ∙ ap (λ s. 58 ∷ s) (codes-append (itoa minor) "\n")))
    ∙ split_colon-IsDigits (codes (itoa major)) _ _ (itoa-IsDigits major)
        (split_colon-newline (codes (itoa minor)) (itoa-IsDigits minor))

small : (n : ℕ) → n < 2 ^ 32 → (n < 9223372036854775808) × (n % 2 ^ 32 ≡ n)
small n h = (omega arith, omega arith)

major_number : (n : ℕ) → n < 2 ^ 32 → atoi_codes (trim_space (codes (itoa n))) ≡ some (pos n)
unfolding atoi
major_number n h =
    ap atoi_codes (trim_space-IsDigits (codes (itoa n)) (itoa-IsDigits n))
    ∙ atoi-itoa n (small n h).0

minor_number :
    (n : ℕ) → n < 2 ^ 32 → atoi_codes (trim_space (codes (itoa n) ++ (10 ∷ []))) ≡ some (pos n)
unfolding atoi
minor_number n h =
    ap atoi_codes (trim_space-newline (codes (itoa n)) (itoa-ne-nil n) (itoa-IsDigits n))
    ∙ atoi-itoa n (small n h).0

module _ ⦃os : Os⦄ where
  -- Where sysfs shows the device of the macvtap as two numbers of 32 bits with a colon between them
  -- and a newline, the device node is made with exactly these two numbers, in this order.
  pub make_tap_node-device_text :
      (m : Macvtap) (major minor : ℕ) (w : World) {s : os.Sys}
      → let file =
          "/sys/devices/virtual/net/" <> (m.name <> ("/tap" <> (itoa m.index <> "/dev"))) in
        major < 2 ^ 32
        → minor < 2 ^ 32
        → os.answer (read_file file) w.sys ≡ (done (device_text major minor), s)
        → make_tap_node m w
          ≡ must
              (ask (mknod m.dev 8576 major minor))
              (record { sys = s; trace = called (read_file file) ∷ w.trace })
  unfolding make_tap_node
  make_tap_node-device_text m major minor w a b h = ground (
    arith,
    device_parts major minor,
    major_number major a,
    minor_number minor b,
    small major a,
    small minor b,
  )
