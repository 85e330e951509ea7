-- ===== src/Confidential.antt =====
-- The confidential chat endpoint, apps/gateway/internal/adapters/http/handlers/
-- confidential_chat_completions_handler.go.
pub mod Replay
pub mod Handler
pub mod Frames
