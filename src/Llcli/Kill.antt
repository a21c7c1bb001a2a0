-- ===== src/Llcli/Kill.antt =====
-- llcli/kill.go
pub mod Names
use runnc.Base.{
  ℕ, ◌-◌, String, ◌<>◌, ℤ, pos, negsuc, Option, none, some, List, [], ◌∷◌, map, Bool, true, false,
  ◌||◌, ◌&&◌, ◌==◌, leb, str_eq, codes, is_prefix_of, atoi, if◌then◌else◌,
}
use runnc.Go.{GoError, text, Outcome, ok, err}
use runnc.Os.{Os, World, M, pure, ◌>>=◌, ◌>>◌}
use runnc.Libcontainer.State.{Codec}
use runnc.Libcontainer.Container.{signal}
use runnc.Llcli.Context.{Context, second_arg}
use runnc.Llcli.Containers.{get_container}

-- `signalMap`, with the numbers of package syscall on linux/amd64.
unfoldable pub signal_map : List (String × ℕ)
signal_map =
    ("ABRT", 6)
    ∷ ("ALRM", 14)
    ∷ ("BUS", 7)
    ∷ ("CHLD", 17)
    ∷ ("CLD", 17)
    ∷ ("CONT", 18)
    ∷ ("FPE", 8)
    ∷ ("HUP", 1)
    ∷ ("ILL", 4)
    ∷ ("INT", 2)
    ∷ ("IO", 29)
    ∷ ("IOT", 6)
    ∷ ("KILL", 9)
    ∷ ("PIPE", 13)
    ∷ ("POLL", 29)
    ∷ ("PROF", 27)
    ∷ ("PWR", 30)
    ∷ ("QUIT", 3)
    ∷ ("SEGV", 11)
    ∷ ("STKFLT", 16)
    ∷ ("STOP", 19)
    ∷ ("SYS", 31)
    ∷ ("TERM", 15)
    ∷ ("TRAP", 5)
    ∷ ("TSTP", 20)
    ∷ ("TTIN", 21)
    ∷ ("TTOU", 22)
    ∷ ("UNUSED", 31)
    ∷ ("URG", 23)
    ∷ ("USR1", 10)
    ∷ ("USR2", 12)
    ∷ ("VTALRM", 26)
    ∷ ("WINCH", 28)
    ∷ ("XCPU", 24)
    ∷ ("XFSZ", 25)
    ∷ []

-- `strings.ToUpper` of one character, and of a text.
upper : ℕ → ℕ
upper c = if leb b'a' c && leb c b'z' then c - 32 else c

unfoldable pub to_upper : List ℕ → List ℕ
unfolding upper
to_upper = map upper

drop_codes : List ℕ → List ℕ → List ℕ
drop_codes [] s = s
drop_codes (c ∷ p) [] = []
drop_codes (c ∷ p) (d ∷ s) = drop_codes p s

-- `strings.TrimPrefix(s, "SIG")`
unfoldable pub trim_sig : List ℕ → List ℕ
unfolding drop_codes
trim_sig s = if is_prefix_of (codes "SIG") s then drop_codes (codes "SIG") s else s

codes_eq : List ℕ → List ℕ → Bool
codes_eq [] [] = true
codes_eq [] (d ∷ t) = false
codes_eq (c ∷ s) [] = false
codes_eq (c ∷ s) (d ∷ t) = c == d && codes_eq s t

unfoldable pub signal_named : List ℕ → List (String × ℕ) → Option ℕ
unfolding codes_eq
signal_named name [] = none
signal_named name ((k, v) ∷ m) = if codes_eq (codes k) name then some v else signal_named name m

-- Is the number that of a known signal?
unfoldable pub is_signal : ℕ → List (String × ℕ) → Bool
is_signal n [] = false
is_signal n ((k, v) ∷ m) = n == v || is_signal n m

abbrev unknown_signal : String → GoError
unknown_signal raw = text ("unknown signal " <> raw)

signal_by_number : String → ℤ → Outcome ℕ
signal_by_number raw (negsuc n) = err (unknown_signal raw)
signal_by_number raw (pos n) = if is_signal n signal_map then ok n else err (unknown_signal raw)

signal_by_name : String → Outcome ℕ
signal_by_name raw = elim (signal_named (trim_sig (to_upper (codes raw))) signal_map) [
  | none ↦ err (unknown_signal raw)
  | some n ↦ ok n
]

-- `parseSignal`
unfoldable pub parse_signal : String → Outcome ℕ
unfolding signal_by_number signal_by_name
parse_signal raw = elim (atoi raw) [ some n ↦ signal_by_number raw n | none ↦ signal_by_name raw ]

module _ ⦃os : Os⦄ ⦃codec : Codec⦄ where
  -- The action of `newKillCmd`
  unfoldable pub kill_cmd : Context → M (Unit {0})
  kill_cmd ctx = do
    c ← get_container ctx
    let raw = second_arg ctx.args
    sig ← λ w. (parse_signal (if str_eq raw "" then "SIGTERM" else raw), w)
    signal c sig ctx.all
