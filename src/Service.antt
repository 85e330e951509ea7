-- ===== src/Service.antt =====
-- The generate service, apps/gateway/internal/application/services.
pub mod Checks
pub mod Resolve
pub mod Chunk
pub mod Models
pub mod Stream
pub mod Pii
pub mod Proxy
