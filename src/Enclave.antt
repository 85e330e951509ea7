-- ===== src/Enclave.antt =====
-- The configuration of the enclave that the gateway runs in.
pub mod Bundle
