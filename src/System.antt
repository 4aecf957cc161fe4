-- ===== src/System.antt =====
-- internal/system and internal/firewall
pub mod Firewall
pub mod Aspects
pub mod Cores
pub mod Online
pub mod SwapSetup
pub mod SwapGone
pub mod Ntp
