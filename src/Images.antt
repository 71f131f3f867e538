-- ===== src/Images.antt =====
-- cmd/runboxctl/cmd/images: the commands that make the images, the registry and the file systems that
-- the backends use.
pub mod Shell
pub mod Generate
pub mod Lock
pub mod Rootfs
pub mod Validate
pub mod List
pub mod Group
pub mod Build
