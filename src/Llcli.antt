-- ===== src/Llcli.antt =====
-- llcli: the commands of the runtime.
pub mod Spec
pub mod Context
pub mod Tty
pub mod Signals
pub mod Runner
pub mod Containers
pub mod Delete
pub mod Kill
pub mod Commands
pub mod Cli
pub mod App
