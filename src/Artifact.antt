-- ===== src/Artifact.antt =====
-- internal/artifact: files that are installed from a source and checked against its checksum.
pub mod Checksum
pub mod Install
pub mod Upgrade
pub mod Verified
pub mod Frame
pub mod Upgraded
pub mod Gnu
