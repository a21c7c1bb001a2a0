-- ===== src/Nabla.antt =====
-- llruntimes/nabla: the handler that runs a unikernel by `nabla-run`.
pub mod Rumprun
pub mod RunncCont
pub mod Exec
