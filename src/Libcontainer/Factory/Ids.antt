-- ===== src/Libcontainer/Factory/Ids.antt =====
-- Which ids `validateID` of libcontainer/factory_nabla.go accepts.
use runnc.Base.{
  ℕ, ◌≤◌, ◌≡◌, refl, ◌↔◌, ◌⊎◌, ◌≢◌, String, List, [], ◌∷◌, All, true, codes, text_len, arith,
}
use runnc.Go.{ok}
use runnc.Libcontainer.Factory.{id_char, all_id_chars, id_regex_match, validate_id}

-- A letter, a digit, an underscore, a plus, a comma, a minus or a dot, in ASCII.
abbrev pub IsIdChar : ℕ → Type 0
IsIdChar c =
    (b'0' ≤ c) × (c ≤ b'9')
    ⊎ ((b'A' ≤ c) × (c ≤ b'Z')
        ⊎ ((b'a' ≤ c) × (c ≤ b'z')
            ⊎ ((c ≡ b'_') ⊎ ((c ≡ b'+') ⊎ ((c ≡ b',') ⊎ ((c ≡ b'-') ⊎ (c ≡ b'.')))))))

id_char_iff : (c : ℕ) → (id_char c ≡ true) ↔ IsIdChar c
unfolding id_char
id_char_iff c = (λ h. ground arith, λ h. ground arith)

all_id_chars_iff : (s : List ℕ) → (all_id_chars s ≡ true) ↔ All IsIdChar s
unfolding all_id_chars
all_id_chars_iff [] = (λ h. tt, λ h. refl)
all_id_chars_iff (c ∷ s) = (
  λ h. ((id_char_iff c).0 (ground arith), (all_id_chars_iff s).0 (ground arith)),
  λ h. ground (arith, (id_char_iff c).1 h.0, (all_id_chars_iff s).1 h.1),
)

id_regex_match_iff : (s : List ℕ) → (id_regex_match s ≡ true) ↔ ((s ≢ []) × All IsIdChar s)
unfolding id_regex_match
id_regex_match_iff [] = (λ h. ground arith, λ h. ground arith)
id_regex_match_iff (c ∷ s) = (
  λ h. (λ e. ground arith, (all_id_chars_iff (c ∷ s)).0 h),
  λ h. (all_id_chars_iff (c ∷ s)).1 h.1,
)

-- An id is valid exactly if it is not empty, has at most 1024 characters, and each of them is a
-- letter, a digit or one of `_`, `+`, `,`, `-`, `.`.
pub validate_id_iff :
    (id : String)
    → (validate_id id ≡ ok tt) ↔ ((codes id ≢ []) × All IsIdChar (codes id) × (text_len id ≤ 1024))
unfolding validate_id
validate_id_iff id = (
  λ h. let m = (id_regex_match_iff (codes id)).0 (ground arith) in (m.0, m.1, ground arith),
  λ h. ground (arith, (id_regex_match_iff (codes id)).1 (h.0, h.1)),
)
