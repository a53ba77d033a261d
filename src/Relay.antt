-- ===== src/Relay.antt =====
-- internal/relay/client.go and internal/runtimeport: the connection over which the server reaches the
-- runtimes of this machine.
pub mod Target
pub mod Proxy
pub mod Session
mod Examples
