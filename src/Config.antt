-- ===== src/Config.antt =====
-- internal/api: the configuration of a node, and what internal/node/hybrid checks of it
pub mod Defs
pub mod Certificate
pub mod Patterns
pub mod Validate
pub mod Valid
pub mod Merge
