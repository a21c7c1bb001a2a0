-- ===== src/Llcli/App/Exits.antt =====
-- How a run of the program (llcli/llcli.go, llcli/create.go) ends.
use runnc.Base.{
  ℕ, ◌≡◌, String, Option, none, some, List, [], ◌∷◌, Bool, true, false, ◌||◌, ◌&&◌, str_eq,
  if◌then◌else◌, ◌<>◌, arith,
}
use runnc.Go.{Outcome, ok, err, stop, exited, Reply, done, failed, GoError, text}
use runnc.Os.{Os, World, M, open_append, Event, called, print, log_line}
use runnc.Configs.{Spec}
use runnc.Llif.{RunllcHandler}
use runnc.Libcontainer.State.{Codec}
use runnc.Llcli.Context.{Context}
use runnc.Llcli.Commands.{create_cmd, start_cmd, init_cmd, ContainerState}
use runnc.Llcli.Delete.{delete_cmd}
use runnc.Llcli.Kill.{kill_cmd}
use runnc.Llcli.Cli.{CliCommand}
use runnc.Llcli.Cli.Tables.{
  new_create_cmd, new_delete_cmd, new_state_cmd, new_start_cmd, new_kill_cmd, new_init_cmd,
}
use runnc.Llcli.App.{
  Parsed, Logger, before, with_format, run_llc, app_of, actions, find_action, context_of,
  print_state_cmd,
}

abbrev pub is_done : Reply ℕ → Bool
is_done (done f) = true
is_done (failed e) = false

abbrev pub accepts : Outcome (Logger × Option GoError) → Bool
accepts (ok (l, none)) = true
accepts _ = false

abbrev is_some : {A : Type 0} → Option A → Bool
is_some none = false
is_some (some a) = true

abbrev names_hold : String → List CliCommand → Bool
names_hold name [] = false
names_hold name (c ∷ rest) = str_eq c.name name || names_hold name rest

-- The commands of the application, and their names on the command line.
pub data CommandName : Type 0 where
  creates deletes states starts kills inits : CommandName

abbrev pub word : CommandName → String
word creates = "create"
word deletes = "delete"
word states = "state"
word starts = "start"
word kills = "kill"
word inits = "init"

module _ ⦃os : Os⦄ (error_text : GoError → String) where
  -- `Before` accepts the global flags exactly if the log file, where one is named, opens, and the
  -- format of the log is text or json.
  before_lem :
      (p : Parsed) (l : Logger) (w : World) {r : Reply ℕ} {s : os.Sys}
      → os.answer (open_append (p.global_string "log")) w.sys ≡ (r, s)
      → let known =
          str_eq (p.global_string "log-format") "text"
          || str_eq (p.global_string "log-format") "json" in
        accepts (before error_text p l w).0
        ≡ ((str_eq (p.global_string "log") "" || is_done r) && known)
  unfolding before with_format
  before_lem p l w h = ground arith

  -- What the opening of the log gives, and the world after it: nothing is opened where no file is named.
  abbrev pub log_answer : Parsed → World → Reply ℕ
  log_answer p w =
      let path = p.global_string "log" in
      if str_eq path "" then done 0 else (os.answer (open_append path) w.sys).0

  abbrev pub is_known : Parsed → Bool
  is_known p =
      str_eq (p.global_string "log-format") "text" || str_eq (p.global_string "log-format") "json"

  abbrev pub opened : Parsed → World → World
  opened p w =
      let path = p.global_string "log" in
      if str_eq path "" then w else record {
        sys = (os.answer (open_append path) w.sys).1;
        trace = called (open_append path) ∷ w.trace;
      }

  module _ ⦃codec : Codec⦄ (llc : RunllcHandler) (decode_spec : String → Reply (Option Spec))
      (marshal : ℕ → String → String → String) (search_labels : List String → String → String)
      (print_state : ContainerState → String) (fuel : ℕ) (signals : List ℕ) where
    abbrev pub named : CommandName → Context → M (Unit {0})
    named creates = create_cmd llc decode_spec fuel signals
    named deletes = delete_cmd llc
    named states =
        print_state_cmd error_text llc decode_spec marshal search_labels print_state fuel signals
    named starts = start_cmd
    named kills = kill_cmd
    named inits = λ ctx. init_cmd llc marshal

    abbrev pub result : (Parsed → M (Unit {0})) → Parsed → World → Outcome (Unit {0}) × World
    result = run_llc error_text llc decode_spec marshal search_labels print_state fuel signals

    -- The end of a run after an error: it is logged, then printed, and the status is 1.
    abbrev pub Fails : (Parsed → M (Unit {0})) → Parsed → World → GoError → List Event → Type 0
    Fails no_command p w e before_it =
        ((result no_command p w).0 ≡ stop (exited 1))
        × ((result no_command p w).1.trace
            ≡ called (print 2 (error_text e)) ∷ called (log_line (error_text e)) ∷ before_it)

    -- What follows where the command runs, by how it ends.
    abbrev pub Followed :
        (Parsed → M (Unit {0}))
        → Parsed
        → World
        → Outcome (Unit {0})
        → Outcome (Unit {0}) × World
        → Type 0
    Followed no_command p w (err e) r = Fails no_command p w e r.1.trace
    Followed no_command p w _ r = result no_command p w ≡ r

    abbrev pub Formatted : (Parsed → M (Unit {0})) → CommandName → Parsed → World → Bool → Type 0
    Formatted no_command n p w true =
        let r = named n (context_of p) (opened p w) in Followed no_command p w r.0 r
    Formatted no_command n p w false =
        Fails no_command p w (text ("unknown log-format " <> p.global_string "log-format"))
          (opened p w).trace

    abbrev pub Logged : (Parsed → M (Unit {0})) → CommandName → Parsed → World → Reply ℕ → Type 0
    Logged no_command n p w (done f) = Formatted no_command n p w (is_known p)
    Logged no_command n p w (failed e) =
        Fails no_command p w e (called (print 1 (error_text e)) ∷ (opened p w).trace)

    abbrev action_of : Parsed → Option (Context → M (Unit {0}))
    action_of p =
        find_action error_text llc decode_spec marshal search_labels print_state fuel signals
          p.command
          (actions error_text llc decode_spec marshal search_labels print_state fuel signals)

    -- The commands that have an action are those that the application declares.
    find_action_iff :
        (name runtime_name root version : String)
        → is_some (
            find_action error_text llc decode_spec marshal search_labels print_state fuel signals
              name
              (actions error_text llc decode_spec marshal search_labels print_state fuel signals))
          ≡ names_hold name (app_of runtime_name root version).commands
    unfolding find_action actions app_of new_create_cmd new_delete_cmd new_state_cmd new_start_cmd
        new_kill_cmd new_init_cmd
    find_action_iff name runtime_name root version = ground arith
