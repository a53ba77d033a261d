-- ===== src/Manifest.antt =====
-- internal/manifest: what memory the models of a manifest need, which of them to load and eject, and how a
-- manifest is brought up and watched.
pub mod Memory
pub mod Plan
pub mod Probe
pub mod Messages
pub mod Preflight
pub mod Watchdog
mod Examples
mod LiveTests
