-- ===== src/Domain.antt =====
-- The gateway's domain types and rules, pkg/domain.
pub mod Error
pub mod Fault
pub mod Account
pub mod Model
pub mod Pii
pub mod Generation
