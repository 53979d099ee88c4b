-- ===== src/Examples.antt =====
-- The theorems at concrete inputs, and runs of the model.
mod Fetching
mod Signing
mod Handling
mod Measuring
mod Judging
mod Merging
mod Ranking
mod Writing
mod Naming
mod Racing
mod Starting
