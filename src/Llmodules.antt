-- ===== src/Llmodules.antt =====
-- llmodules: the handlers that come with the runtime.
pub mod TapName
pub mod TapBridge
pub mod Iso
pub mod Noop
