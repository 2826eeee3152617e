-- ===== src/Dsl.antt =====
-- crates/shellflow-dsl/src: the language of deploy scripts.
pub mod Error
pub mod Heredoc
pub mod SshSpec
pub mod Interpolate
pub mod States
pub mod Target
pub mod Step
pub mod Plan
pub mod Parser
pub mod Valid
