-- ===== src/Llcli/Cli.antt =====
-- What llcli declares to the library for command lines (urfave/cli), and the substitution in its
-- texts (llcli/util.go).
pub mod Tables
use runnc.Base.{
  ℕ, zero, suc, ◌-◌, String, ◌<>◌, List, [], ◌∷◌, Bool, true, false, text_len, has_prefix,
  if◌then◌else◌,
}

-- The kinds of flags that are used: with their name, the default of a text, and the usage.
pub data Flag : Type 0 where
  bool_flag : String → String → Flag
  hidden_flag : String → String → Flag
  string_flag : String → String → String → Flag
  int_flag : String → String → Flag
  string_slice_flag : String → String → Flag
  int64_slice_flag : String → String → Flag

-- `cli.Command`, without the action
pub record CliCommand : Type 0 where
  pub name : String
  pub usage : String
  pub args_usage : String
  pub description : String
  pub flags : List Flag
  pub skip_arg_reorder : Bool

-- `stringSubFunc`
abbrev pub StringSubFunc : Type 0
StringSubFunc = String → String

-- `strings.Replace(s, old, val, -1)`, for an `old` that is not empty; `skip` characters of a match
-- are still to be passed over.
replace_from : String → String → ℕ → String → String
replace_from old val skip String.[] = ""
replace_from old val (suc skip) (String.◌∷◌ c s) = replace_from old val skip s
replace_from old val zero (String.◌∷◌ c s) =
    let past = replace_from old val (text_len old - 1) s in
    let next = replace_from old val zero s in
    if has_prefix (String.◌∷◌ c s) old then val <> past else String.◌∷◌ c next

-- `stprintf`: the parameters in the order in which Go ranges over the map.
unfoldable pub stprintf : String → List (String × String) → String
unfolding replace_from
stprintf format [] = format
stprintf format ((key, val) ∷ params) =
    stprintf (replace_from ("{{" <> (key <> "}}")) val zero format) params

-- `createSubst`
unfoldable pub create_subst : List (String × String) → StringSubFunc
unfolding stprintf
create_subst params input = stprintf input params
