-- ===== src/Base/FilePath.antt =====
-- `filepath.Join`, `filepath.Dir`, `filepath.Base` and `filepath.IsAbs` of the Go library, on Unix.
use Prim.Native.Char.{Char, code}
use Prim.Native.String.{String, ◌++◌ as ◌<>◌}
use mathlib.Core.Bool.{Bool, true, false}
use mathlib.Core.List.{List, [], ◌∷◌, reverse}
use runnc.Base.Tests.{◌==◌, str_eq, if◌then◌else◌}
use runnc.Base.Text.{has_prefix, join_with}

push_char : Char → List String → List String
push_char c [] = String.◌∷◌ c "" ∷ []
push_char c (s ∷ rest) = String.◌∷◌ c s ∷ rest

-- The text between the slashes.
unfoldable pub split_path : String → List String
unfolding push_char
split_path String.[] = "" ∷ []
split_path (String.◌∷◌ c s) =
    let rest = split_path s in if code c == b'/' then "" ∷ rest else push_char c rest

-- `..` removes the last element kept, vanishes at the root, and stays in front of a relative path.
pop : Bool → List String → List String
pop rooted [] = if rooted then [] else ".." ∷ []
pop rooted (s ∷ kept) = if str_eq s ".." then ".." ∷ s ∷ kept else kept

clean_step : Bool → List String → List String → List String
unfolding pop
clean_step rooted kept [] = reverse kept
clean_step rooted kept (s ∷ rest) =
    clean_step rooted
      (if str_eq s ""
        then kept
        else if str_eq s "."
        then kept
        else if str_eq s ".."
        then pop rooted kept
        else s ∷ kept)
      rest

abbrev pub is_abs : String → Bool
is_abs s = has_prefix s "/"

or_dot : String → String
or_dot s = if str_eq s "" then "." else s

unfoldable pub clean : String → String
unfolding clean_step split_path or_dot
clean s =
    if is_abs s
    then "/" <> join_with "/" (clean_step true [] (split_path s))
    else or_dot (join_with "/" (clean_step false [] (split_path s)))

-- `filepath.Join(a, b)`: empty elements are passed over.
unfoldable pub join : String → String → String
unfolding clean
join a b =
    if str_eq a ""
    then if str_eq b "" then "" else clean b
    else if str_eq b ""
    then clean a
    else clean (a <> ("/" <> b))

-- The last text that is not empty.
last_of : List String → String
last_of [] = ""
last_of (s ∷ rest) = let later = last_of rest in if str_eq later "" then s else later

init_of : List String → List String
init_of [] = []
init_of (s ∷ []) = []
init_of (s ∷ t ∷ rest) = s ∷ init_of (t ∷ rest)

-- `filepath.Base`: slashes at the end do not count.
unfoldable pub base_name : String → String
unfolding last_of split_path
base_name s =
    let name = last_of (split_path s) in
    if str_eq name "" then if str_eq s "" then "." else "/" else name

-- `filepath.Dir`
unfoldable pub dir_name : String → String
unfolding init_of split_path clean
dir_name s = clean (join_with "/" (init_of (split_path s)) <> (if is_abs s then "/" else ""))
