-- ===== src/Os.antt =====
-- The operating system, as the program meets it: the calls that it makes, and a system that
-- answers them. The system is a parameter; the world records each call, the newest first.
mod Calls
pub mod Monad
pub mod Rules
pub mod Traces
pub mod Views
pub mod Total
pub use Calls.*
pub use Monad.*
pub use Rules.*
pub use Traces.*
pub use Views.*
pub use Total.*
