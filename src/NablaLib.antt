-- ===== src/NablaLib.antt =====
-- nabla-lib: what the handlers do to the network and to disk images.
pub mod Storage
pub mod Mask
pub mod Network
pub mod Macvtap
