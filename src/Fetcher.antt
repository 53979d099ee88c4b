-- ===== src/Fetcher.antt =====
-- Fetching from a relay page by page, with a cursor that is kept on disk (internal/fetcher).
pub mod Cursor
pub mod Identity
pub mod Store
pub mod Pages
pub mod Fetch
pub mod Loop
pub mod All
pub mod Sinks
