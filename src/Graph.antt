-- ===== src/Graph.antt =====
-- The follow graph and the ranks: internal/metrics/graphrank.go.
pub mod Neo4j
pub mod Ingest
pub mod Promises
pub mod Lists
pub mod Targets
pub mod Newest
pub mod Engine
pub mod Projection
pub mod Fresh
