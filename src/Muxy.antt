-- ===== src/Muxy.antt =====
-- crates/shellflow-muxy/src: the transport's policy, outcomes, payloads and screens.
pub mod Lines
pub mod Payload
pub mod Policy
