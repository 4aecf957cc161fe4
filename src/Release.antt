-- ===== src/Release.antt =====
-- internal/aws/manifest.go and internal/aws/source.go: the release manifest, and the release that is
-- chosen from it for a requested version.
pub mod Defs
pub mod Select
pub mod Chosen
pub mod Match
