-- ===== src/Host.antt =====
-- bin/shellflow/src: the parts of the command line program that compute.
pub mod Diff
