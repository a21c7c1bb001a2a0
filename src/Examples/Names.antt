-- ===== src/Examples/Names.antt =====
-- One way to split the names of a flag, for the example of the flags of `create`.
use Prim.Native.Char.{Char, code}
use Prim.Native.String.append
use runnc.Base.{
  ◌≡◌, refl, String, ◌<>◌, List, [], ◌∷◌, false, ◌==◌, codes, text_drop, if◌then◌else◌, arith,
}
use runnc.Llcli.App.Options.{IsSplit, holds_code}

push_char : Char → List String → List String
push_char c [] = String.◌∷◌ c "" ∷ []
push_char c (n ∷ names) = String.◌∷◌ c n ∷ names

without_space : List String → List String
without_space [] = []
without_space (n ∷ names) = text_drop 1 n ∷ names

unfoldable pub names_of : String → List String
unfolding push_char without_space
names_of String.[] = "" ∷ []
names_of (String.◌∷◌ c s) =
    let names = names_of s in if code c == b',' then "" ∷ without_space names else push_char c names

names_of-one : (s : String) → holds_code (codes s) ≡ false → names_of s ≡ s ∷ []
unfolding names_of
names_of-one String.[] h = refl
names_of-one (String.◌∷◌ c s) h = ground (arith, names_of-one s)

names_of-two :
    (s t : String)
    → holds_code (codes s) ≡ false
    → holds_code (codes t) ≡ false
    → names_of (s <> (", " <> t)) ≡ s ∷ t ∷ []
unfolding names_of
names_of-two String.[] t h k =
    rw append.nil (rw append.cons (rw append.cons (rw append.nil (ground (arith, names_of-one t)))))
names_of-two (String.◌∷◌ c s) t h k = rw append.cons (ground (arith, names_of-two s t))

pub names_of-IsSplit : IsSplit names_of
names_of-IsSplit = record { one_name = names_of-one; two_names = names_of-two }
