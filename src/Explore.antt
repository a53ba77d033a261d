-- ===== src/Explore.antt =====
-- cmd/mantler/explore.go: the files of a runtime plan.
pub mod Paths
pub mod Files
pub mod Filters
pub mod Plan
mod Examples
