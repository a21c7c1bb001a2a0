-- ===== src/Examples.antt =====
-- The theorems at concrete inputs, on a small machine, and tests of the definitions.
pub mod Machine
pub mod Data
mod Containers
mod Commands
mod Modules
mod Pure
mod Names
mod Runs
mod Programs
mod Later
mod History
mod Arrival
