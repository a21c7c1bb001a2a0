-- ===== src/Libcontainer.antt =====
-- libcontainer: the container object, the factory that makes and loads containers, and the init
-- process that a container starts.
pub mod Errors
pub mod State
pub mod Process
pub mod Console
pub mod Container
pub mod Factory
pub mod Hooks
pub mod Init
