-- ===== src/Daemons.antt =====
-- internal/daemon and the daemons that nodeadm configures and runs
pub mod Manager
pub mod Wait
pub mod Reached
pub mod Services
pub mod Running
