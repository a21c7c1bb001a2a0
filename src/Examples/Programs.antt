-- ===== src/Examples/Programs.antt =====
-- The theorems about the command line, its commands and the helpers, at concrete inputs.
use runnc.Base.{
  ℕ, ◌≡◌, refl, String, Option, none, some, List, [], ◌∷◌, true, false, str_eq, if◌then◌else◌,
}
use runnc.Go.{GoError, done, Reply}
use runnc.Os.{World, pure, M}
use runnc.Configs.{Spec}
use runnc.Llcli.Context.{Context}
use runnc.Llcli.Containers.{runner_of}
use runnc.Llcli.Commands.Creating.{Ends, create_cmd-Ends}
use runnc.Llcli.Cli.Tables.{new_create_cmd}
use runnc.Llcli.App.{Parsed, context_of}
use runnc.Llcli.App.Options.{IsRead, create_runner}
use runnc.Examples.Names.{names_of, names_of-IsSplit}
use runnc.Examples.Machine.{machine, world_of}
use runnc.Examples.Data.{status_codec, quiet_handler, app_process}

abbrev start_world : World
start_world = world_of [] true

abbrev file_world : World
file_world = world_of (("/src", "x") ∷ []) true

abbrev bytes : List ℕ
bytes = 255 ∷ 255 ∷ 7 ∷ 0 ∷ []

abbrev as_text : GoError → String
as_text e = "error"

-- A command line on which no flag is given.
abbrev plain : Parsed
plain = record {
  command = "create";
  args = "box" ∷ [];
  string_of = λ n. "";
  bool_of = λ n. false;
  global_string =
      λ n. if str_eq n "root" then "/run/runnc" else if str_eq n "log-format" then "text" else "";
  global_bool = λ n. false;
}

-- A specification with all that `create` needs.
abbrev spec : Spec
spec = record {
  version = "1.0.0";
  process = some app_process;
  root = some "/rootfs";
  mounts = [];
  hooks = none;
  annotations = [];
  linux = none;
}

abbrev bundle_world : World
bundle_world = world_of (("config.json", "{}") ∷ []) true

abbrev decode : String → Reply (Option Spec)
decode s = done (some spec)

abbrev context : Context
context = record {
  args = "box" ∷ [];
  root = "/run/runnc";
  bundle = "";
  pid_file = "";
  console = "";
  force = false;
  all = false;
  detach = false;
  no_subreaper = false;
}

create_cmd-Ends_example : Ends quiet_handler 9 [] context decode bundle_world
create_cmd-Ends_example = create_cmd-Ends quiet_handler 9 [] context decode bundle_world

abbrev nothing : Parsed → M (Unit {0})
nothing p = pure tt

plain-IsRead : IsRead names_of (new_create_cmd (λ s. s)) plain
plain-IsRead = record { no_string = λ n h. refl; no_bool = λ n h. refl }

create_runner_example :
    let r = runner_of quiet_handler (context_of plain) true in
    (r.console ≡ "") × (r.detach ≡ false) × (r.enable_subreaper ≡ true)
create_runner_example =
    create_runner names_of names_of-IsSplit (λ s. s) plain quiet_handler plain-IsRead
