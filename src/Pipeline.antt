-- ===== src/Pipeline.antt =====
-- internal/pipeline: what a stage signs, and how its payload is sealed.
pub mod Sealing
pub mod Signing
pub mod Value
pub mod Context
pub mod Stage
mod Examples
