-- ===== src/Transfer.antt =====
-- internal/transfer: copying models between the machines of a network.
pub mod Token
pub mod Server
pub mod Address
pub mod Store
pub mod Client
mod Examples
