-- ===== src/Registry.antt =====
-- pkg/registry: how the hosts of registries become endpoints.
pub mod Config
pub mod Certs
pub mod Service
pub mod Ping
pub mod Reference
pub mod Insecure
pub mod Plain
pub mod Terms
