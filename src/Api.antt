-- ===== src/Api.antt =====
-- internal/api: the HTTP layer.
pub mod Types
pub mod Validation
pub mod Execute
pub mod Pool
pub mod Server
