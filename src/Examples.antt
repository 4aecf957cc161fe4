-- ===== src/Examples.antt =====
-- The theorems applied to concrete machines and inputs.
pub mod Quiet
pub mod Flows
pub mod Parts
pub mod Rules
pub mod Config
pub mod Daemons
pub mod System
