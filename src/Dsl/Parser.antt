-- ===== src/Dsl/Parser.antt =====
-- crates/shellflow-dsl/src/parser.rs: the scanner that turns a deploy script into a plan.
pub mod Words
pub mod Flags
pub mod State
pub mod Declare
pub mod Files
pub mod Store
pub mod Units
pub mod Inherit
pub mod Builds
pub mod Fleet
pub mod Checks
pub mod Conditions
pub mod Health
pub mod Probes
pub mod Apply
pub mod Script
pub mod Exports
pub mod Actions
pub mod Keys
pub mod Merging
pub mod Bodies
pub mod Unmarked
pub mod Plain
pub mod Spelling
pub mod Members
