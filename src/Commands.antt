-- ===== src/Commands.antt =====
-- cmd/nodeadm: the commands install, uninstall, upgrade and init
pub mod Preflight
pub mod Run
pub mod Init
pub mod Guarded
