-- ===== src/Kubelet.antt =====
-- internal/kubelet: the configuration and the daemon
pub mod NodeName
pub mod Defs
pub mod Config
pub mod Write
pub mod Flags
