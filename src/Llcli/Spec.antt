-- ===== src/Llcli/Spec.antt =====
-- llcli/util.go: reading the specification of a bundle.
pub mod Validity
use runnc.Base.{
  ℕ, String, ◌<>◌, Option, none, some, List, [], ◌∷◌, ◌++◌, Bool, str_eq, ◌==◌, is_abs, has_prefix,
  join, if◌then◌else◌,
}
use runnc.Go.{Reply, done, failed, GoError, text, is_not_exist, Outcome, ok, err, stop, panicked}
use runnc.Os.{
  Os, World, M, ask, must, attempt, deferring, pure, raise, halt, ◌>>=◌, ◌>>◌, open_read, read_all,
  close, chdir, getenv, geteuid,
}
use runnc.Configs.{Spec, SpecProcess, Mount}

abbrev pub spec_config : String
spec_config = "config.json"

process_args : Option (List String) → Outcome (Unit {0})
process_args none = err (text "args must not be empty")
process_args (some []) = err (text "args must not be empty")
process_args (some (a ∷ rest)) = ok tt

-- `validateProcessSpec`. The pointer is not tested for nil.
unfoldable pub validate_process_spec : Option SpecProcess → Outcome (Unit {0})
unfolding process_args
validate_process_spec none = stop (panicked "invalid memory address or nil pointer dereference")
validate_process_spec (some p) =
    if str_eq p.cwd ""
    then err (text "Cwd property must not be empty")
    else if is_abs p.cwd
    then process_args p.args
    else err (text "Cwd must be an absolute path")

-- `setupSdNotify`
add_notify_env : String → Option SpecProcess → Option SpecProcess
add_notify_env socket none = none
add_notify_env socket (some p) =
    some (record p { env = p.env ++ (("NOTIFY_SOCKET=" <> socket) ∷ []) })

unfoldable pub setup_sd_notify : Spec → String → Spec
unfolding add_notify_env
setup_sd_notify s socket = record s {
  mounts =
      s.mounts
      ++ (record { destination = socket; kind = "bind"; source = socket; options = "bind" ∷ [] }
          ∷ []);
  process = add_notify_env socket s.process;
}

-- A relative root is taken to lie in the bundle.
root_in_bundle : String → Option String → Option String
root_in_bundle bundle none = none
root_in_bundle bundle (some root) = some (if has_prefix root "/" then root else join bundle root)

unfoldable pub place_root : String → Spec → Spec
unfolding root_in_bundle
place_root bundle s = record s { root = root_in_bundle bundle s.root }

module _ ⦃os : Os⦄ (decode_spec : String → Reply (Option Spec)) where
  abbrev lifted : {A : Type 0} → Outcome A → M A
  lifted r w = (r, w)

  validated : Option Spec → M Spec
  validated none = halt (panicked "invalid memory address or nil pointer dereference")
  validated (some s) = do lifted (validate_process_spec s.process); pure s

  open_spec : String → M ℕ
  open_spec path = do
    r ← ask (open_read path)
    elim r [
      | done f ↦ pure f
      | failed e ↦
          if is_not_exist e
          then raise (text ("JSON specification file " <> (path <> " not found")))
          else raise e
    ]

  -- `loadSpec`
  unfoldable pub load_spec : String → M Spec
  unfolding open_spec validated
  load_spec path = do
    f ← open_spec path
    deferring (ask (close f))
        (do content ← must (ask (read_all f)); s ← must (pure (decode_spec content)); validated s)

  enter_bundle : String → M (Unit {0})
  enter_bundle bundle = if str_eq bundle "" then pure tt else must (ask (chdir bundle))

  -- `setupSpec`
  unfoldable pub setup_spec : String → M Spec
  unfolding enter_bundle load_spec
  setup_spec bundle = do
    enter_bundle bundle
    s ← load_spec spec_config
    socket ← ask (getenv "NOTIFY_SOCKET")
    let placed = place_root bundle s
    uid ← ask geteuid
    if uid == 0
        then pure (if str_eq socket "" then placed else setup_sd_notify placed socket)
        else raise (text "runtime should be run as root")
