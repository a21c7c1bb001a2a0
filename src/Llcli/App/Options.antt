-- ===== src/Llcli/App/Options.antt =====
-- The flags that `create` of llcli declares, and those that it reads.
use runnc.Base.{
  ℕ, not, ap, ◌≡◌, refl, String, ◌<>◌, List, [], ◌∷◌, ◌==◌, Bool, true, false, ◌||◌, str_eq, codes,
}
use runnc.Os.{Os}
use runnc.Llif.{RunllcHandler}
use runnc.Libcontainer.State.{Codec}
use runnc.Llcli.Cli.{Flag, bool_flag, hidden_flag, string_flag, CliCommand, StringSubFunc}
use runnc.Llcli.Cli.Tables.{new_create_cmd}
use runnc.Llcli.Containers.{runner_of}
use runnc.Llcli.App.{Parsed, context_of}

abbrev holds_name : String → List String → Bool
holds_name s [] = false
holds_name s (t ∷ rest) = str_eq s t || holds_name s rest

abbrev pub holds_code : List ℕ → Bool
holds_code [] = false
holds_code (c ∷ rest) = c == b',' || holds_code rest

-- The names of a flag: a text without a comma is one name; a comma and a space stand between two.
pub record IsSplit (names_of : String → List String) : Type 0 where
  pub one_name : (s : String) → holds_code (codes s) ≡ false → names_of s ≡ s ∷ []
  pub two_names :
      (s t : String)
      → holds_code (codes s) ≡ false
      → holds_code (codes t) ≡ false
      → names_of (s <> (", " <> t)) ≡ s ∷ t ∷ []

-- Is there a flag with a text, or with a truth value, of this name?
abbrev pub has_string : (String → List String) → String → List Flag → Bool
has_string names_of n [] = false
has_string names_of n (string_flag name value usage ∷ flags) =
    holds_name n (names_of name) || has_string names_of n flags
has_string names_of n (_ ∷ flags) = has_string names_of n flags

abbrev pub has_bool : (String → List String) → String → List Flag → Bool
has_bool names_of n [] = false
has_bool names_of n (bool_flag name usage ∷ flags) =
    holds_name n (names_of name) || has_bool names_of n flags
has_bool names_of n (hidden_flag name usage ∷ flags) =
    holds_name n (names_of name) || has_bool names_of n flags
has_bool names_of n (_ ∷ flags) = has_bool names_of n flags

-- What the library promises of a flag that the command does not declare.
pub record IsRead (names_of : String → List String) (c : CliCommand) (p : Parsed) : Type 0 where
  pub no_string : (n : String) → has_string names_of n c.flags ≡ false → p.string_of n ≡ ""
  pub no_bool : (n : String) → has_bool names_of n c.flags ≡ false → p.bool_of n ≡ false

module _ (names_of : String → List String) (split : IsSplit names_of) (sf : StringSubFunc)
    (p : Parsed) where
  abbrev flags : List Flag
  flags = (new_create_cmd sf).flags

  no_console : has_string names_of "console" flags ≡ false
  unfolding new_create_cmd
  no_console =
      rw
        (
          split.two_names "bundle" "b" refl refl,
          split.one_name "console-socket" refl,
          split.one_name "pid-file" refl,
        )
        refl

  no_bools :
      (has_bool names_of "detach" flags ≡ false) × (has_bool names_of "no-subreaper" flags ≡ false)
  unfolding new_create_cmd
  no_bools = rw (split.one_name "no-pivot" refl, split.one_name "no-new-keyring" refl) (refl, refl)

  -- Whatever the command line of `create` is, its runner is never detached, never has a console path
  -- and always has the subreaper: of the flags from which these are read none is declared.
  pub create_runner :
      ⦃os : Os⦄
      → ⦃codec : Codec⦄ → (llc : RunllcHandler) → IsRead names_of (new_create_cmd sf) p
      → let r = runner_of llc (context_of p) true in
        (r.console ≡ "") × (r.detach ≡ false) × (r.enable_subreaper ≡ true)
  unfolding new_create_cmd context_of runner_of
  create_runner llc read = (
    read.no_string "console" no_console,
    read.no_bool "detach" no_bools.0,
    ap not (read.no_bool "no-subreaper" no_bools.1),
  )
