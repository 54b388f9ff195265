-- ===== src/Config.antt =====
-- pkg/config: the configuration document of a device.
pub mod Target
pub mod Client
pub mod Repository
pub mod Document
pub mod Defaults
pub mod File
pub mod Reload
