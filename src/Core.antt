-- ===== src/Core.antt =====
-- crates/shellflow-core: the runtime helpers behind the executor.
pub mod Mask
pub mod Env
pub mod Template
