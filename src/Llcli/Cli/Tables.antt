-- ===== src/Llcli/Cli/Tables.antt =====
-- The commands that llcli declares, one function for each file: create.go, delete.go, state.go,
-- start.go, kill.go, init.go and exec.go, and the global flags of llcli.go.
use runnc.Base.{String, List, [], ◌∷◌, true, false, join_with}
use runnc.Llcli.Cli.{
  Flag, bool_flag, string_flag, int_flag, string_slice_flag, int64_slice_flag, hidden_flag,
  CliCommand, StringSubFunc,
}

text_lines : List String → String
text_lines = join_with "\n"

-- `newCreateCmd`, without its action
unfoldable pub new_create_cmd : StringSubFunc → CliCommand
unfolding text_lines
new_create_cmd sf = record {
  name = "create";
  usage = "create a container";
  args_usage = sf (
      text_lines (
        "<container-id>" ∷ ""
        ∷ "Where \"<container-id>\" is your name for the instance of the container that you"
        ∷ "are starting. The name you provide for the container instance must be unique on"
        ∷ "your host." ∷ []));
  description = sf (
      text_lines (
        "The create command creates an instance of a container for a bundle. The bundle"
        ∷ "is a directory with a specification file named \"config.json\" and a root"
        ∷ "filesystem." ∷ ""
        ∷ "The specification file includes an args parameter. The args parameter is used"
        ∷ "to specify command(s) that get run when the container is started." ∷ "" ∷ []));
  flags =
      (string_flag "bundle, b" ""
        "path to the root of the bundle directory, defaults to the current directory")
      ∷ (string_flag "console-socket" ""
          "path to an AF_UNIX socket which will receive a file descriptor referencing the master end of the console's pseudoterminal")
      ∷ (string_flag "pid-file" "" "specify the file to write the process id to")
      ∷ (bool_flag "no-pivot"
          "do not use pivot root to jail process inside rootfs.  This should be used whenever the rootfs is on top of a ramdisk")
      ∷ (bool_flag "no-new-keyring"
          "do not create a new session keyring for the container.  This will cause the container to inherit the calling processes session key")
      ∷ (int_flag "preserve-fds"
          "Pass N additional file descriptors to the container (stdio + $LISTEN_FDS + N in total)")
      ∷ [];
  skip_arg_reorder = false;
}

-- `newDeleteCmd`, without its action
unfoldable pub new_delete_cmd : StringSubFunc → CliCommand
unfolding text_lines
new_delete_cmd sf = record {
  name = "delete";
  usage = "delete any resources held by the container often used with detached container";
  args_usage = sf (
      text_lines (
        "<container-id>" ∷ ""
        ∷ "Where \"<container-id>\" is the name for the instance of the container." ∷ ""
        ∷ "EXAMPLE:"
        ∷ "For example, if the container id is \"ubuntu01\" and {{name}} list currently shows the"
        ∷ "status of \"ubuntu01\" as \"stopped\" the following will delete resources held for"
        ∷ "\"ubuntu01\" removing \"ubuntu01\" from the {{name}} list of containers:" ∷ ""
        ∷ "       # {{name}} delete ubuntu01" ∷ []));
  description = "";
  flags =
      (bool_flag "force, f" "Forcibly deletes the container if it is still running (uses SIGKILL)")
      ∷ [];
  skip_arg_reorder = false;
}

-- `newStateCmd`, without its action
unfoldable pub new_state_cmd : StringSubFunc → CliCommand
unfolding text_lines
new_state_cmd sf = record {
  name = "state";
  usage = "output the state of a container";
  args_usage = sf (
      text_lines (
        "<container-id>" ∷ ""
        ∷ "Where \"<container-id>\" is your name for the instance of the container." ∷ []));
  description = sf (
      text_lines (
        "The state command outputs current state information for the" ∷ "instance of a container."
        ∷ []));
  flags = [];
  skip_arg_reorder = false;
}

-- `newStartCmd`, without its action
unfoldable pub new_start_cmd : StringSubFunc → CliCommand
unfolding text_lines
new_start_cmd sf = record {
  name = "start";
  usage = "executes the user defined process in a created container";
  args_usage = sf (
      text_lines (
        "<container-id>" ∷ ""
        ∷ "Where \"<container-id>\" is your name for the instance of the container that you"
        ∷ "are starting. The name you provide for the container instance must be unique on"
        ∷ "your host." ∷ []));
  description = sf ("The start command executes the user defined process in a created container.");
  flags = [];
  skip_arg_reorder = false;
}

-- `newKillCmd`, without its action
unfoldable pub new_kill_cmd : StringSubFunc → CliCommand
unfolding text_lines
new_kill_cmd sf = record {
  name = "kill";
  usage = "kill sends the specified signal (default: SIGTERM) to the container's init process";
  args_usage = sf (
      text_lines (
        "<container-id> [signal]" ∷ ""
        ∷ "Where \"<container-id>\" is the name for the instance of the container and"
        ∷ "\"[signal]\" is the signal to be sent to the init process." ∷ "" ∷ "EXAMPLE:"
        ∷ "For example, if the container id is \"ubuntu01\" the following will send a \"KILL\""
        ∷ "signal to the init process of the \"ubuntu01\" container:" ∷ "\t "
        ∷ "       # {{name}} kill ubuntu01 KILL" ∷ []));
  description = "";
  flags =
      (bool_flag "all, a" "send the specified signal to all processes inside the container") ∷ [];
  skip_arg_reorder = false;
}

-- `newInitCmd`, without its action
unfoldable pub new_init_cmd : StringSubFunc → CliCommand
unfolding text_lines
new_init_cmd sf = record {
  name = "init";
  usage =
      sf ("initialize the namespaces and launch the process (do not call it outside of {{name}})");
  args_usage = "";
  description = "";
  flags = [];
  skip_arg_reorder = false;
}

-- `newExecCmd`, without its action
unfoldable pub new_exec_cmd : CliCommand
unfolding text_lines
new_exec_cmd = record {
  name = "exec";
  usage = "execute new process inside the container";
  args_usage = text_lines (
      "<container-id> <command> [command options]  || -p process.json <container-id>" ∷ ""
      ∷ "Where \"<container-id>\" is the name for the instance of the container and"
      ∷ "\"<command>\" is the command to be executed in the container."
      ∷ "\"<command>\" can't be empty unless a \"-p\" flag provided." ∷ "" ∷ "EXAMPLE:"
      ∷ "For example, if the container is configured to run the linux ps command the"
      ∷ "following will output a list of processes running in the container:" ∷ ""
      ∷ "       # {{name}} exec <container-id> ps" ∷ []);
  description = "";
  flags =
      (string_flag "console-socket" ""
        "path to an AF_UNIX socket which will receive a file descriptor referencing the master end of the console's pseudoterminal")
      ∷ (string_flag "cwd" "" "current working directory in the container")
      ∷ (string_slice_flag "env, e" "set environment variables")
      ∷ (bool_flag "tty, t" "allocate a pseudo-TTY")
      ∷ (string_flag "user, u" "" "UID (format: <uid>[:<gid>])")
      ∷ (int64_slice_flag "additional-gids, g" "additional gids")
      ∷ (string_flag "process, p" "" "path to the process.json")
      ∷ (bool_flag "detach,d" "detach from the container's process")
      ∷ (string_flag "pid-file" "" "specify the file to write the process id to")
      ∷ (string_flag "process-label" ""
          "set the asm process label for the process commonly used with selinux")
      ∷ (string_flag "apparmor" "" "set the apparmor profile for the process")
      ∷ (bool_flag "no-new-privs" "set the no new privileges value for the process")
      ∷ (string_slice_flag "cap, c" "add a capability to the bounding set for the process")
      ∷ (hidden_flag "no-subreaper"
          "disable the use of the subreaper used to reap reparented processes")
      ∷ [];
  skip_arg_reorder = true;
}

-- `app.Flags`
unfoldable pub app_flags : String → List Flag
app_flags root =
    (bool_flag "debug" "enable debug output for logging")
    ∷ (string_flag "log" "/dev/null"
        "set the log file path where internal debug information is written")
    ∷ (string_flag "log-format" "text" "set the format used by logs ('text' (default), or 'json')")
    ∷ (string_flag "root" root
        "root directory for storage of container state (this should be located in tmpfs)")
    ∷ []

-- `usage`
unfoldable pub app_usage : String
unfolding text_lines
app_usage = text_lines (
    "Nabla Containers runtime" ∷ ""
    ∷ "{{name}} is a command line client for running applications packaged according to"
    ∷ "the Open Container Initiative (OCI) format." ∷ ""
    ∷ "Containers are configured using bundles. A bundle for a container is a directory"
    ∷ "that includes a specification file named \"config.json\" and a root filesystem."
    ∷ "The root filesystem contains the contents of the container." ∷ ""
    ∷ "To start a new instance of a container:" ∷ ""
    ∷ "    # {{name}} run [ -b bundle ] <container-id>" ∷ ""
    ∷ "Where \"<container-id>\" is your name for the instance of the container that you"
    ∷ "are starting. The name you provide for the container instance must be unique on"
    ∷ "your host. Providing the bundle directory using \"-b\" is optional. The default"
    ∷ "value for \"bundle\" is the current directory." ∷ [])
