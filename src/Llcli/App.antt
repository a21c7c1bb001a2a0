-- ===== src/Llcli/App.antt =====
-- llcli/llcli.go: the application that `Runllc` builds and runs. What the library for command lines
-- reads of the arguments is a parameter, `Parsed`; so are the version of the specification and the
-- text of an error and of a state.
pub mod Options
pub mod Exits
use runnc.Base.{
  ℕ, String, ◌<>◌, Option, none, some, List, [], ◌∷◌, ◌++◌, Bool, true, false, str_eq,
  if◌then◌else◌, join_with,
}
use runnc.Go.{Reply, done, failed, GoError, text, exited}
use runnc.Os.{
  Os, World, M, ask, attempt, pure, raise, halt, ◌>>=◌, ◌>>◌, open_append, print, log_line, write,
}
use runnc.Configs.{Spec}
use runnc.Llif.{RunllcHandler}
use runnc.Libcontainer.State.{Codec}
use runnc.Llcli.Context.{Context}
use runnc.Llcli.Cli.{CliCommand, Flag, StringSubFunc, create_subst}
use runnc.Llcli.Cli.Tables.{
  new_create_cmd, new_delete_cmd, new_state_cmd, new_start_cmd, new_kill_cmd, new_init_cmd,
  app_flags, app_usage,
}
use runnc.Llcli.Commands.{create_cmd, state_cmd, start_cmd, init_cmd, ContainerState}
use runnc.Llcli.Delete.{delete_cmd}
use runnc.Llcli.Kill.{kill_cmd}

-- What the library has read: the command and its arguments, and the values of the flags of the
-- command and of the application, by name; a flag that is not declared has the empty value.
pub record Parsed : Type 0 where
  pub command : String
  pub args : List String
  pub string_of : String → String
  pub bool_of : String → Bool
  pub global_string : String → String
  pub global_bool : String → Bool

-- The flags that the commands read.
unfoldable pub context_of : Parsed → Context
context_of p = record {
  args = p.args;
  root = p.global_string "root";
  bundle = p.string_of "bundle";
  pid_file = p.string_of "pid-file";
  console = p.string_of "console";
  force = p.bool_of "force";
  all = p.bool_of "all";
  detach = p.bool_of "detach";
  no_subreaper = p.bool_of "no-subreaper";
}

-- `app.Version`
unfoldable pub version_text : String → String → String → String
version_text version git_commit spec_version =
    let head = if str_eq version "" then [] else version ∷ [] in
    let commit = if str_eq git_commit "" then [] else ("commit: " <> git_commit) ∷ [] in
    join_with "\n" (head ++ (commit ++ (("spec: " <> spec_version) ∷ [])))

-- The logger of logrus: its level, its output and its formatter.
pub record Logger : Type 0 where
  pub debug : Bool
  pub output : Option ℕ
  pub json : Bool

-- `app.Name`, `app.Usage`, `app.Version`, `app.Flags` and `app.Commands`
pub record App : Type 0 where
  pub name : String
  pub usage : String
  pub version : String
  pub flags : List Flag
  pub commands : List CliCommand

unfoldable pub app_of : String → String → String → App
app_of runtime_name root version =
    let sf = create_subst (("name", runtime_name) ∷ []) in
    record {
      name = runtime_name;
      usage = sf app_usage;
      version = version;
      flags = app_flags root;
      commands =
          new_create_cmd sf
          ∷ new_delete_cmd sf
          ∷ new_state_cmd sf
          ∷ new_start_cmd sf
          ∷ new_kill_cmd sf
          ∷ new_init_cmd sf
          ∷ [];
    }

abbrev pub default_logger : Logger
default_logger = record { debug = false; output = none; json = false }

module _ ⦃os : Os⦄ (error_text : GoError → String) where
  with_format : String → Logger → M (Logger × Option GoError)
  with_format format l =
      if str_eq format "text"
      then pure (l, none)
      else if str_eq format "json"
      then pure (record l { json = true }, none)
      else pure (l, some (text ("unknown log-format " <> format)))

  -- `app.Before`: the logger that it leaves, with its error.
  unfoldable pub before : Parsed → Logger → M (Logger × Option GoError)
  unfolding with_format
  before p l =
      let leveled = record l { debug = if p.global_bool "debug" then true else l.debug } in
      let path = p.global_string "log" in
      if str_eq path "" then with_format (p.global_string "log-format") leveled else do
        opened ← ask (open_append path)
        elim opened [
          | done f ↦ with_format (p.global_string "log-format") (record leveled { output = some f })
          | failed e ↦ do ask (print 1 (error_text e)); pure (leveled, some e)
        ]

  -- `fatal`
  unfoldable pub fatal : {A : Type 0} → GoError → M A
  fatal e = do ask (log_line (error_text e)); ask (print 2 (error_text e)); halt (exited 1)

  -- `FatalWriter.Write`, over the descriptor of the writer that it wraps.
  unfoldable pub fatal_write : ℕ → String → M (Reply (Unit {0}))
  fatal_write fd p = do ask (log_line p); ask (write fd p)

  module _ ⦃codec : Codec⦄ (llc : RunllcHandler) (decode_spec : String → Reply (Option Spec))
      (marshal : ℕ → String → String → String) (search_labels : List String → String → String)
      (print_state : ContainerState → String) (fuel : ℕ) (signals : List ℕ) where
    -- The action of `newStateCmd` prints what it has found.
    pub print_state_cmd : Context → M (Unit {0})
    print_state_cmd ctx = do s ← state_cmd search_labels ctx; ask (print 1 (print_state s))

    -- The actions, in the order of `app.Commands`.
    unfoldable pub actions : List (String × (Context → M (Unit {0})))
    unfolding print_state_cmd
    actions =
        ("create", create_cmd llc decode_spec fuel signals)
        ∷ ("delete", delete_cmd llc)
        ∷ ("state", print_state_cmd)
        ∷ ("start", start_cmd)
        ∷ ("kill", kill_cmd)
        ∷ ("init", λ ctx. init_cmd llc marshal)
        ∷ []

    pub find_action :
        String → List (String × (Context → M (Unit {0}))) → Option (Context → M (Unit {0}))
    find_action name [] = none
    find_action name ((n, action) ∷ rest) =
        let found = find_action name rest in if str_eq n name then some action else found

    -- `app.Run`: `Before`, and then the action of the command; `no_command` is what the library does
    -- where no command has the name. An error of either is the result.
    unfoldable pub run_app : (Parsed → M (Unit {0})) → Parsed → M (Unit {0})
    unfolding actions find_action
    run_app no_command p = do
      (l, e) ← before p default_logger
      elim e [
        | some e ↦ raise e
        | none ↦ elim (find_action p.command actions) [
          | some action ↦ action (context_of p)
          | none ↦ no_command p
        ]
      ]

    -- The end of `Runllc`
    unfoldable pub run_llc : (Parsed → M (Unit {0})) → Parsed → M (Unit {0})
    unfolding run_app
    run_llc no_command p = do
      r ← attempt (run_app no_command p)
      elim r [ done _ ↦ pure tt | failed e ↦ fatal e ]
