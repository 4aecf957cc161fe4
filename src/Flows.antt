-- ===== src/Flows.antt =====
-- internal/flows: nodeadm's install, uninstall, upgrade and init.
pub mod Store
pub mod Install
pub mod Uninstall
pub mod Init
pub mod Upgrade
pub mod Saved
pub mod Installed
pub mod Loaded
pub mod Absent
pub mod Removed
pub mod Phases
pub mod Upgraded
