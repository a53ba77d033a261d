-- ===== src/Client.antt =====
-- internal/client/client.go: the errors of the server client, and its loop of retries.
pub mod RetryAfter
pub mod Retry
mod Examples
