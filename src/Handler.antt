-- ===== src/Handler.antt =====
-- Answering a query by a stream of signed assertions (internal/handler/handler.go).
pub mod Run
pub mod Assert
pub mod Send
pub mod Serve
pub mod Keeps
pub mod Selective
pub mod Blocking
pub mod Delivers
pub mod Early
pub mod Calm
pub mod Closed
