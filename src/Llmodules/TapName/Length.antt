-- ===== src/Llmodules/TapName/Length.antt =====
-- When `nablaTapName` gives a name, and which ids share one.
use text.Mathlib.TextLemmas.{append_cancel_left}
use runnc.Base.{
  ◌≤◌, ◌<◌, ◌≡◌, ◌↔◌, String, ◌<>◌, text_len, text_take, text_len-append, text_take-append,
  text_len-text_take, ◌+◌, arith,
}
use runnc.Go.{ok, stop, panicked}
use runnc.Llmodules.TapName.{nabla_tap_name, ifnamsiz}

-- `nablaTapName` gives exactly for an id of twelve characters or more a name, which is "tap" and the
-- first twelve characters of the id; for every shorter id it panics, and for one of eight to eleven
-- characters, which pass its own test, because the slice is out of range.
pub nabla_tap_name_lem :
    (id : String)
    → (12 ≤ text_len id → nabla_tap_name id ≡ ok ("tap" <> text_take 12 id))
      × (text_len id < 12
          → 8 ≤ text_len id
          → nabla_tap_name id ≡ stop (panicked "slice bounds out of range"))
      × (text_len id < 8 → nabla_tap_name id ≡ stop (panicked "Insufficient uniqueness in ID"))
unfolding nabla_tap_name
nabla_tap_name_lem id =
    let len = text_len-append "tap" id in
    let front = text_take-append "tap" id 12 15 (omega arith) in
    (λ h. ground arith, λ h k. ground arith, λ h. ground arith)

-- Two ids of twelve characters or more have the same tap device exactly if their first twelve
-- characters are the same.
nabla_tap_name-injective :
    (a b : String)
    → 12 ≤ text_len a
    → 12 ≤ text_len b
    → (nabla_tap_name a ≡ nabla_tap_name b) ↔ (text_take 12 a ≡ text_take 12 b)
nabla_tap_name-injective a b ha hb =
    let na = (nabla_tap_name_lem a).0 ha in
    let nb = (nabla_tap_name_lem b).0 hb in
    (λ e. append_cancel_left "tap" _ _ (ground arith), λ e. ground arith)

-- A tap device's name fits the kernel's array of names with its ending zero, whatever the id is; it
-- is of the full length that is left.
nabla_tap_name-bounded :
    (id : String) {name : String} → nabla_tap_name id ≡ ok name → text_len name + 1 ≡ ifnamsiz
unfolding nabla_tap_name
nabla_tap_name-bounded id h =
    let len = text_len-append "tap" id in
    let taken = text_len-text_take 15 ("tap" <> id) in ground arith
