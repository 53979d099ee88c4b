-- ===== src/Metrics.antt =====
-- The metrics of users, events and addresses (internal/metrics/metrics.go).
pub mod Hours
pub mod Rank
pub mod Zaps
pub mod Counts
pub mod Sums
pub mod Spans
pub mod Posts
pub mod Texts
pub mod Topics
pub mod User
