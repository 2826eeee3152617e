-- ===== src/Examples.antt =====
-- Runs on concrete inputs.
mod Redaction
mod Plans
mod Scripts
mod Slips
mod Transport
