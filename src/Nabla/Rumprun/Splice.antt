-- ===== src/Nabla/Rumprun/Splice.antt =====
-- What the splicing in `MarshalJSON` of llruntimes/nabla/runnc-cont/rumprun.go amounts to.
use Prim.Native.String.append
use package.text.Mathlib.TextLemmas.{append_assoc, append-nil}
use runnc.Base.{
  ℕ, ◌≡◌, refl, ◌≢◌, String, ◌<>◌, List, [], ◌∷◌, Bool, true, false, ◌||◌, str_eq, str_eq_iff,
  if◌then◌else◌, text_take, text_drop, text_init, arith, Bool-cases, inl, inr, itoa, ap, ◌∙◌,
}
use runnc.Go.{ok, err, text}
use runnc.NablaLib.Mask.{mask_cidr}
use runnc.Nabla.Rumprun.{
  Json, RumpArgs, member, members_json, env_alias_json, add_env, marshal_json, marshal_rump_args,
  rump_cidr,
}

text_init-append_brace : (s : String) → text_init (s <> "}") ≡ s
text_init-append_brace String.[] = refl
text_init-append_brace (String.◌∷◌ c String.[]) = simp append.cons
text_init-append_brace (String.◌∷◌ c (String.◌∷◌ d s)) =
    simp append.cons
      (ap (String.◌∷◌ c) (simp append.cons at (text_init-append_brace (String.◌∷◌ d s))))

text_drop-brace : (s : String) → text_drop 1 ("{" <> s) ≡ s
text_drop-brace s = rw append.cons (rw append.nil refl)

text_take-brace : (s : String) → text_take 1 ("{" <> s) ≡ "{"
text_take-brace s = rw append.cons refl

inside_braces : (s : String) → text_drop 1 (text_init ("{" <> (s <> "}"))) ≡ s
inside_braces s = rw (← append_assoc) (rw text_init-append_brace (text_drop-brace s))

-- Is one of the variables the empty text?
abbrev pub has_empty : List String → Bool
has_empty [] = false
has_empty (v ∷ env) = str_eq v "" || has_empty env

module _ (json : Json) where
  -- The members with the key `env`, one for each variable, each followed by a comma.
  abbrev pub env_members : List String → String
  env_members [] = ""
  env_members (v ∷ env) = member json "env" v <> ("," <> env_members env)

  -- The check of `encoding/json`: an object with members in a row is accepted, and a comma that
  -- follows the brace or another comma is not.
  pub record IsCheck : Type 0 where
    pub object :
        (env : List String) (ra : RumpArgs)
        → json.valid ("{" <> (env_members env <> (members_json json ra <> "}"))) ≡ true
    pub lone_comma :
        (env : List String) (rest : String)
        → json.valid ("{" <> (env_members env <> ("," <> rest))) ≡ false

  -- What the loop of `MarshalJSON` adds: nothing but a comma for an empty variable.
  abbrev env_text : List String → String
  env_text [] = ""
  env_text (v ∷ env) =
      let rest = env_text env in (if str_eq v "" then "" else member json "env" v) <> ("," <> rest)

  add_env-env_text : (out : String) (env : List String) → add_env json out env ≡ out <> env_text env
  unfolding add_env env_alias_json
  add_env-env_text out [] = rw append-nil
  add_env-env_text out (v ∷ env) = elim (Bool-cases (str_eq v "")) [
    | inl empty ↦
        rw empty (add_env-env_text (out <> ("" <> ",")) env ∙ simp (append_assoc, append.nil))
    | inr given ↦ rw given (
        rw inside_braces
          (add_env-env_text (out <> (member json "env" v <> ",")) env ∙ simp append_assoc))
  ]

  marshal_json-env_text :
      (ra : RumpArgs)
      → marshal_json json ra ≡ "{" <> (env_text ra.env <> (members_json json ra <> "}"))
  unfolding marshal_json
  marshal_json-env_text ra =
      rw (text_take-brace, text_drop-brace, add_env-env_text "" ra.env) (simp append.nil)

  all_given : (env : List String) → has_empty env ≡ false → env_text env ≡ env_members env
  all_given [] h = refl
  all_given (v ∷ env) h = elim (Bool-cases (str_eq v "")) [
    | inl empty ↦ ground arith
    | inr given ↦
        rw given (ap (λ r. member json "env" v <> ("," <> r)) (all_given env (rw given at h)))
  ]

  some_empty :
      (env : List String)
      → has_empty env ≡ true
      → (before : List String) × (rest : String) × (env_text env
          ≡ env_members before <> ("," <> rest))
  some_empty [] h = absurd (ground arith)
  some_empty (v ∷ env) h = elim (Bool-cases (str_eq v "")) [
    | inl empty ↦ ([], env_text env, rw empty (simp append.nil))
    | inr given ↦
        let (before, rest, same) = some_empty env (rw given at h) in
        (
          v ∷ before,
          rest,
          rw given (ap (λ r. member json "env" v <> ("," <> r)) same ∙ simp append_assoc),
        )
  ]

  -- Where no variable of the environment is empty, the arguments are marshalled to one object: first
  -- a member with the key `env` for each variable, in order, then the other members as they are.
  -- With an empty variable, what is spliced has a lone comma, and there is an error. The check of
  -- `encoding/json` accepts objects, and no lone comma.
  pub marshal_rump_args_lem :
      IsCheck
      → (ra : RumpArgs)
      → marshal_rump_args json ra ≡ (
          if has_empty ra.env
          then err (text "json: error calling MarshalJSON for type *runnc_cont.rumpArgs")
          else ok ("{" <> (env_members ra.env <> (members_json json ra <> "}"))))
  unfolding marshal_rump_args
  marshal_rump_args_lem check ra = elim (Bool-cases (has_empty ra.env)) [
    | inl one ↦
        let (before, rest, same) = some_empty ra.env one in
        let refused : json.valid (marshal_json json ra) ≡ false =
          rw (marshal_json-env_text ra, same, append_assoc, append_assoc)
            (check.lone_comma before (rest <> (members_json json ra <> "}"))) in
        rw (one, refused) refl
    | inr none_empty ↦
        let whole =
          marshal_json-env_text ra
          ∙ ap (λ r. "{" <> (r <> (members_json json ra <> "}"))) (all_given ra.env none_empty) in
        rw (none_empty, whole, check.object ra.env ra) refl
  ]

-- The mask that rumprun is told is that of the address, except that 32 is told as 1.
rump_cidr_lem :
    (mask : List ℕ) → (mask_cidr mask ≡ 32 → rump_cidr mask ≡ "1") × (rump_cidr mask ≢ "32")
unfolding rump_cidr itoa
rump_cidr_lem mask = (
  λ h. rw h refl,
  λ h. ground (arith, str_eq_iff (itoa (mask_cidr mask)) "32", str_eq_iff "1" "32"),
)
