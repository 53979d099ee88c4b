-- ===== src/Entry.antt =====
-- The program: its configuration, what it starts, and how it serves queries (cmd/cipolin/main.go).
pub mod Settings
pub mod Start
pub mod Guards
pub mod Serve
