-- ===== src/Commands.antt =====
-- internal/commands: executing the server's commands.
pub mod Lanes
pub mod Executor
pub mod Manifests
pub mod EnvFile
pub mod Profile
pub mod Params
pub mod Config
pub mod Cluster
pub mod Models
pub mod VllmEnv
pub mod Runtimes
mod Examples
mod ProfileTests
mod ModelTests
mod RuntimeTests
