-- ===== src/Registry.antt =====
-- internal/registry/registry.go: the registry of languages that the daemon reads.
pub mod Types
pub mod Filter
