-- ===== src/Agent.antt =====
-- cmd/mantler: what the daemon does between and during its check-ins.
pub mod Outcomes
pub mod Acks
pub mod Dispatcher
pub mod Reconcile
pub mod Schedule
mod Examples
