-- ===== src/Metering.antt =====
-- The client of the Metering service, apps/gateway/internal/adapters/metering.
pub mod Wire
pub mod Contract
pub mod Catalog
pub mod Client
pub mod Keeper
