-- ===== src/Examples.antt =====
-- The theorems at concrete inputs, and tests of the definitions.
pub mod Pool
pub mod Api
pub mod Sandbox
pub mod Run
pub mod Backend
pub mod ImageSpec
pub mod LangTest
pub mod Images
pub mod Commands
pub mod Generate
pub mod Start
pub mod Registry
