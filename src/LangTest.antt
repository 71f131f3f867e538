-- ===== src/LangTest.antt =====
-- internal/langtest: the tests of a language, read from its tests.yml and run in a sandbox.
pub mod Fixture
pub mod Load
pub mod Run
