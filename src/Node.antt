-- ===== src/Node.antt =====
-- internal/node: a node of the cluster, and the provider of hybrid nodes
pub mod Skew
pub mod Roles
pub mod Drained
pub mod Inactive
pub mod Registry
pub mod Enrich
pub mod Aws
pub mod Credentials
