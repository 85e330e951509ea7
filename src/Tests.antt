-- ===== src/Tests.antt =====
-- Sample data, and each theorem at a concrete input.
mod Samples
mod Replay
mod Metering
mod Client
mod Service
mod Handler
mod Stream
mod Pii
mod Mapper
mod Masked
mod Models
mod Enclave
mod Restored
mod Frames
mod Streamed
