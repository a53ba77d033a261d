-- ===== src/Runtime.antt =====
-- internal/runtime: the manager that routes requests to the runtimes' drivers.
pub mod Driver
pub mod Catalog
pub mod Manager
pub mod Prepare
pub mod Start
mod Examples
