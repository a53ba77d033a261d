-- ===== src/Trainer.antt =====
-- internal/trainer: the jobs of the trainers, and the file that keeps them.
pub mod Job
pub mod JobStore
pub mod Status
pub mod Manager
mod Examples
