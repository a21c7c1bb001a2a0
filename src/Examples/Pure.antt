-- ===== src/Examples/Pure.antt =====
-- The theorems about functions that make no calls, at concrete inputs.
use Prim.Native.Char.{code}
use Prim.Native.String.append
use package.text.Mathlib.TextLemmas.{append_assoc}
use runnc.Base.{
  ◌≡◌, ◌≢◌, ◌↔◌, ◌<◌, refl, String, ◌<>◌, pos, none, some, List, [], ◌∷◌, All, codes, text_len,
  text_take, join, has_suffix, base_name, dir_name, arith, ◌≤◌, Bool, true, false, Bool-cases, inl,
  inr, str_eq, ◌∙◌, ap, Option, ◌||◌, ◌&&◌, ◌==◌, if◌then◌else◌,
}
use runnc.Go.{ok, err, stop, panicked, text}
use runnc.Configs.{Spec, SpecProcess, Config, parse_spec}
use runnc.Configs.Bounds.{IsParsed, parse_spec-IsParsed}
use runnc.Libcontainer.Factory.{validate_id}
use runnc.Libcontainer.Factory.Ids.{IsIdChar, validate_id_iff}
use runnc.Llmodules.TapName.{nabla_tap_name}
use runnc.Llmodules.TapName.Length.{nabla_tap_name_lem}
use runnc.NablaLib.Network.{TapNetwork}
use runnc.Nabla.Rumprun.{Json, RumpArgs, RumpArgsBlock, marshal_rump_args, members_json}
use runnc.Nabla.Rumprun.Splice.{has_empty, env_members, IsCheck, marshal_rump_args_lem}
use runnc.Nabla.Exec.{cont_of_options, nabla_run_bin, or_blank}
use runnc.Nabla.Exec.Handover.{ReadsBack, cont_of_options-run_options}
use runnc.Llmodules.TapBridge.{run_options}
use runnc.Examples.Machine.{differ, eth0_addr, eth0}
use runnc.Examples.Data.{app_process, small_config, small_net}

abbrev app_spec : Spec
app_spec = record {
  version = "1.0.0";
  process = some app_process;
  root = some "/rootfs";
  mounts = [];
  hooks = none;
  annotations = [];
  linux = some (record {
    namespaces =
        record { kind = "network"; path = "/a" } ∷ record { kind = "network"; path = "/b" } ∷ [];
    resources = some (record { memory = some (record { limit = some (pos 1073741824) }) });
  });
}

abbrev app_config : Config
app_config = record small_config { memory = pos 1024; netns_path = "/b" }

parse_spec-IsParsed_example :
    (p : SpecProcess) × (app_spec.process ≡ some p) × IsParsed app_spec p app_config
unfolding parse_spec
parse_spec-IsParsed_example = parse_spec-IsParsed app_spec {c = app_config} refl

validate_id_iff_example :
    (validate_id "box-1" ≡ ok tt)
    ↔ ((codes "box-1" ≢ []) × All IsIdChar (codes "box-1") × (text_len "box-1" ≤ 1024))
validate_id_iff_example = validate_id_iff "box-1"

nabla_tap_name_lem_example :
    (12 ≤ text_len "0123456789"
      → nabla_tap_name "0123456789" ≡ ok ("tap" <> text_take 12 "0123456789"))
    × (text_len "0123456789" < 12
        → 8 ≤ text_len "0123456789"
        → nabla_tap_name "0123456789" ≡ stop (panicked "slice bounds out of range"))
    × (text_len "0123456789" < 8
        → nabla_tap_name "0123456789" ≡ stop (panicked "Insufficient uniqueness in ID"))
nabla_tap_name_lem_example = nabla_tap_name_lem "0123456789"

-- A check for commas that follow a brace or a comma, where all texts are quoted alike.
abbrev single_commas : Bool → String → Bool
single_commas after String.[] = true
single_commas after (String.◌∷◌ c s) =
    let is_comma = code c == b',' in
    let rest = single_commas (is_comma || code c == b'{') s in
    if is_comma && after then false else rest

abbrev alike : Json
alike = record { quote = λ s. "''"; valid = single_commas false }

abbrev state_after : Bool → String → Bool
state_after after String.[] = after
state_after after (String.◌∷◌ c s) = state_after (code c == b',' || code c == b'{') s

single_commas-append :
    (b : Bool) (s t : String)
    → single_commas b (s <> t) ≡ (single_commas b s && single_commas (state_after b s) t)
single_commas-append b String.[] t = rw append.nil refl
single_commas-append b (String.◌∷◌ c s) t =
    let rest = single_commas-append (code c == b',' || code c == b'{') s t in
    rw append.cons (ground arith)

single_commas-member :
    (b : Bool) (s : String) → single_commas b ("'':''" <> ("," <> s)) ≡ single_commas true s
single_commas-member b s =
    single_commas-append b "'':''" ("," <> s) ∙ single_commas-append false "," s

moved : (s t : String) → ("'':''" <> ("," <> s)) <> t ≡ "'':''" <> ("," <> (s <> t))
moved s t = simp append_assoc

single_commas-lone :
    (env : List String) (rest : String)
    → single_commas true (env_members alike env <> ("," <> rest)) ≡ false
single_commas-lone [] rest =
    single_commas-append true "" ("," <> rest) ∙ single_commas-append true "," rest
single_commas-lone (v ∷ env) rest =
    ap (single_commas true) (moved (env_members alike env) ("," <> rest))
    ∙ single_commas-member true (env_members alike env <> ("," <> rest))
    ∙ single_commas-lone env rest

single_commas-rest :
    (ra : RumpArgs) (b : Option RumpArgsBlock)
    → ra.blk ≡ b
    → single_commas true (members_json alike ra <> "}") ≡ true
unfolding members_json
single_commas-rest ra none h = elim (Bool-cases (str_eq ra.cwd "")) [
  | inl e ↦ rw (h, e) refl
  | inr e ↦ rw (h, e) refl
]
single_commas-rest ra (some b) h = elim (Bool-cases (str_eq ra.cwd "")) [
  | inl e ↦ rw (h, e) refl
  | inr e ↦ rw (h, e) refl
]

single_commas-object :
    (env : List String) (ra : RumpArgs)
    → single_commas true (env_members alike env <> (members_json alike ra <> "}")) ≡ true
single_commas-object [] ra =
    single_commas-append true "" (members_json alike ra <> "}") ∙ single_commas-rest ra ra.blk refl
single_commas-object (v ∷ env) ra =
    ap (single_commas true) (moved (env_members alike env) (members_json alike ra <> "}"))
    ∙ single_commas-member true (env_members alike env <> (members_json alike ra <> "}"))
    ∙ single_commas-object env ra

alike-IsCheck : IsCheck alike
alike-IsCheck = record {
  object = λ env ra.
      single_commas-append false "{" (env_members alike env <> (members_json alike ra <> "}"))
      ∙ single_commas-object env ra;
  lone_comma = λ env rest.
      single_commas-append false "{" (env_members alike env <> ("," <> rest))
      ∙ single_commas-lone env rest;
}

abbrev app_args : RumpArgs
app_args = record {
  cmdline = "app.nabla -v";
  net = record {
    interface = "ukvmif0";
    cloner = "True";
    kind = "inet";
    method = "static";
    addr = "172.17.0.2";
    mask = "16";
    gw = "172.17.0.1";
  };
  blk = none;
  env = "A=1" ∷ "B=2" ∷ [];
  cwd = "/";
}

marshal_rump_args_lem_example : marshal_rump_args alike app_args ≡ (
    if has_empty app_args.env
    then err (text "json: error calling MarshalJSON for type *runnc_cont.rumpArgs")
    else ok ("{" <> (env_members alike app_args.env <> (members_json alike app_args <> "}"))))
marshal_rump_args_lem_example = marshal_rump_args_lem alike alike-IsCheck app_args

abbrev env : List String
env = "LD_LIBRARY_PATH=/lib" ∷ "A=1" ∷ []

abbrev bridged : TapNetwork
bridged = record {
  ip = eth0_addr.ip;
  gateway = 172 ∷ 17 ∷ 0 ∷ 1 ∷ [];
  mask = eth0_addr.mask;
  mac = eth0.hardware_addr;
}

bridged-ReadsBack : ReadsBack small_net bridged 16
bridged-ReadsBack = record {
  ip_given = differ "172.17.0.2" "" refl;
  gateway_given = differ "172.17.0.1" "" refl;
  parse_gateway = refl;
  parse_cidr = refl;
  parse_mac = (2 ∷ 66 ∷ [], refl);
}

cont_of_options-run_options_example :
    cont_of_options small_net "/run/runnc/box" small_config
      (run_options small_net bridged 16 "tap0123456789ab")
      (("FsPath", "/run/runnc/box/rootfs.iso") ∷ [])
    ≡ ok (record {
      nabla_run_bin = nabla_run_bin;
      nabla_run_args = "-v" ∷ [];
      unikernel_bin = join "/run/runnc/box" "app.nabla";
      tap = "tap0123456789ab";
      ip_address = bridged.ip;
      ip_mask = bridged.mask;
      gateway = bridged.gateway;
      mac = bridged.mac;
      memory = pos 512;
      disk = "/run/runnc/box/rootfs.iso";
      working_dir = "/";
      env = "A=1" ∷ [];
      mounts = [];
    })
unfolding has_suffix or_blank
cont_of_options-run_options_example =
    cont_of_options-run_options small_net bridged 16 "tap0123456789ab" "/run/runnc/box" "app.nabla"
      ("-v" ∷ []) small_config (("FsPath", "/run/runnc/box/rootfs.iso") ∷ []) bridged-ReadsBack
      (omega arith) (differ "tap0123456789ab" "" refl) refl refl

-- Tests.
join_up : join "/run/runnc" ".." ≡ "/run"
unfolding join
join_up = refl

short_id_panics : nabla_tap_name "0123456789" ≡ stop (panicked "slice bounds out of range")
unfolding nabla_tap_name
short_id_panics = refl

-- The last element of a path, whose slashes at the end do not count.
base_name_tests :
    (base_name "/run/x" ≡ "x")
    × (base_name "/run/x/" ≡ "x")
    × (base_name "/" ≡ "/")
    × (base_name "" ≡ ".")
    × (dir_name "/run/x/" ≡ "/run/x")
unfolding base_name dir_name
base_name_tests = (refl, refl, refl, refl, refl)
