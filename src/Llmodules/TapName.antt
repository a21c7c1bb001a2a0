-- ===== src/Llmodules/TapName.antt =====
-- `nablaTapName` (llmodules/network/tap_bridge.go, and a copy in libcontainer/factory_nabla.go).
pub mod Length
use runnc.Base.{
  ℕ, suc, ◌+◌, ◌≤◌, ◌<◌, ◌-◌, String, ◌<>◌, ltb, ◌==◌, text_len, text_take, if◌then◌else◌, ◌≡◌,
  refl, arith,
}
use runnc.Go.{Outcome, ok, err, stop, panicked}

-- `syscall.IFNAMSIZ`
abbrev pub ifnamsiz : ℕ
ifnamsiz = 16

-- `s[:n]` with Go's check of its bound.
abbrev slice_to : ℕ → String → Outcome String
slice_to n s =
    if ltb (text_len s) n then stop (panicked "slice bounds out of range") else ok (text_take n s)

unfoldable pub nabla_tap_name : String → Outcome String
nabla_tap_name id =
    if ltb (text_len id) 8
    then stop (panicked "Insufficient uniqueness in ID")
    else slice_to (ifnamsiz - 1) ("tap" <> id)
