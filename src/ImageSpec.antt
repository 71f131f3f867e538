-- ===== src/ImageSpec.antt =====
-- internal/imagespec/imagespec.go: the image specifications of the languages.
pub mod Types
pub mod Filter
pub mod Spec
pub mod Load
