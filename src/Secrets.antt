-- ===== src/Secrets.antt =====
-- crates/shellflow-secrets/src: the files that hold secrets.
pub mod EnvFile
