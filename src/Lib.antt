-- ===== src/Lib.antt =====
-- A model of runnc, an OCI runtime that runs containers as unikernels (nabla containers), and
-- theorems about it.
--
-- The program. The commands of the runtime (llcli) read the specification of a bundle, make a
-- container by the factory (libcontainer), start its init process, and find it again by the state
-- file in its directory. Container and factory call three low level handlers (llif): for the file
-- system, the network and the execution. runnc.go chooses a handler that packs the root file
-- system into an ISO image (llmodules/fs), one that makes a tap device (llmodules/network, on
-- nabla-lib), and one that becomes nabla-run (llruntimes/nabla). A container is created, started,
-- queried, killed and deleted by separate runs of the program, which meet in the state file, in
-- exec.fifo and in the process's pid.
--
-- The files.
--   Base: booleans, texts, decimal numbers, lists and paths (path/filepath) over the native numbers.
--   Go: error values, with the codes of libcontainer/errors.go, and how a function ends: a result,
--     an error, or a stop (panic, exit, select {}, execve).
--   Os/Calls: the calls of the operating system and of the libraries that ask it, as a data type,
--     and a system that answers them, which is a parameter of everything. Os/Monad: code as a
--     function of the world, which records each call. Os/Rules: reading a block backwards.
--     Os/Total: code that never returns an error. Os/Traces: what a block leaves in the record of its
--     calls, at whichever step it stops. Os/Views: code that leaves a view of the system as it is.
--   Configs: libcontainer/configs. Configs/Bounds: what ParseSpec gives.
--   Llif: llif. The nine input types with the same fields are one record.
--   Libcontainer/State, Errors, Process, Hooks: the data of libcontainer, generic_error.go,
--     process.go with process_nabla.go, hooks.go. Errors/Detail has the errors with their time stamps
--     and stacks, and Errors/Erasure how they relate to those that the other modules use.
--   Libcontainer/Console: console.go and console_nabla.go: mount as mount_console, dupStdio as
--     dup_console, open as open_slave.
--   Libcontainer/Container: the methods of nablaContainer (container_nabla.go): start, exec, destroy,
--     currentState as current_state, saveState as save_state, Signal as signal; the theorems stand
--     in Container/Destroy, Container/Lifecycle and Container/Launch. Container/Methods: the interface
--     BaseContainer and nablaContainer, which fills it. Container/Mutex: goroutines that share a
--     container, as a step relation. Container/Persistence: what the next run of the program finds,
--     and Container/Unsaved what it finds where the state could not be written.
--     Container/Transitions: the life of a container as a machine on its status.
--   Libcontainer/Factory: factory_nabla.go: Create as create_container, Load as load, validateID as
--     validate_id; theorems in Factory/Ids, Factory/Create, Factory/Load and
--     Factory/Abandoned (what a `Create` that fails has done). Factory/Interface: the
--     interface Factory (factory.go) and NablaFactory, which fills it.
--   Libcontainer/Init: initNabla (init_nabla.go) as init_nabla; Init/Order, on Init/Marks: the order
--     of its handovers; Init/Arrival: how it takes up what start hands to it.
--   Utils: utils, with Utils/Depth, Trails and Copied for what a copying leaves. NablaLib/Storage, Network, Macvtap, Mask: nabla-lib; Network/Changes: what a set-up
--     of the links has asked for, at whichever step it stops; Macvtap/Numbers: the device numbers.
--   Llmodules/Iso, TapBridge, TapName, Noop: llmodules.
--   Nabla/Exec, Nabla/RunncCont, Nabla/Rumprun: llruntimes/nabla.
--   Llcli/Spec, Containers, Runner, Tty, Signals: the helpers of llcli (util*.go), with Tty/Copying for
--     the goroutines that copy the output of a container and Copying/Waits for their end. Llcli/Delete, Kill, Commands: the commands;
--     Commands/Later: what later runs do with a container that was started; Commands/History (on
--     Commands/Frame and Commands/Stored): sequences of runs that share the state file.
--     Llcli/Context: what they read of the command line. Llcli/Cli: what each command declares to the
--     library for command lines (its texts and flags in Cli/Tables), and createSubst. Llcli/App:
--     Runllc (llcli.go) as app_of, before, run_app and run_llc.
--   Main: runnc.go, with main; Main/Gone: what destroy does with the handlers chosen there.
--     Examples: a small machine (Machine, Data), and the theorems at concrete inputs.
-- A method that changes its container takes it and gives it back; where an error is returned after
-- a change, the error stands beside the container.
--
-- Bounds and fuel. Copy recurs on fuel, which bounds the depth of the directories: a number above
-- the depth is enough (Utils/Depth). reap recurs on fuel, which bounds the exits that wait at
-- once. Both end with out_of_fuel where the fuel is too little. The loop of delete has the bound
-- 100 of the source. Numbers are printed with one step of fuel for each unit of the number, which
-- is more than it has digits. Integers are unbounded, but for Atoi, which refuses what an int64
-- cannot hold, and for the conversions to uint32 and uintptr.
--
-- Not modelled: the JSON syntax, the parsing of addresses and of the command line, the quoting of
-- texts, and the check that encoding/json makes of what MarshalJSON gives, which are parameters; the
-- pointers in the inputs of handlers, through which a handler is taken to change nothing; the log
-- beside what Before and fatal do with it; time stamps and stack traces of the errors outside
-- Errors/Detail, and the full text of some errors; the bytes that pass through the pipes;
-- goroutines that copy a terminal's input and output, and the input of a container, for which
-- nothing waits; Signal beside the methods that hold the mutex of a container, since it takes no
-- lock; tests and build scripts.
pub mod Base
pub mod Go
pub mod Os
pub mod Configs
pub mod Llif
pub mod Libcontainer
pub mod Utils
pub mod NablaLib
pub mod Llmodules
pub mod Nabla
pub mod Llcli
pub mod Main
pub mod Examples
