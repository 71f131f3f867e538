-- ===== src/Sandbox.antt =====
-- internal/sandbox: the isolation boundary.
pub mod Types
pub mod Interface
pub mod Limits
pub mod Clamp
pub mod LimitWriter
pub mod Entries
pub mod Workspace
pub mod Cgroup
pub mod Docker
pub mod Nsjail
pub mod Factory
