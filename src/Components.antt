-- ===== src/Components.antt =====
-- What nodeadm installs: one module for each component.
pub mod Download
pub mod Gather
pub mod Gathered
pub mod Binaries
pub mod Kubelet
pub mod Cni
pub mod IamRolesAnywhere
pub mod Iptables
pub mod Containerd
pub mod Ssm
pub mod SsmVerified
pub mod UniqueLine
pub mod Verified
pub mod Frame
pub mod Eks
