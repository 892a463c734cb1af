-- ===== src/Tools.antt =====
-- tools/: the programs that operators and the CI run beside the service.
pub mod Text
pub mod Hardening
pub mod Client
pub mod Smoke
