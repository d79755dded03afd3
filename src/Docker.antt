-- ===== src/Docker.antt =====
-- petri/core/provider/docker: the provider that runs a testnet in local Docker containers.
pub mod Types
pub mod Network
pub mod Task
pub mod Quiet
pub mod Calls
pub mod Owned
mod Created
pub mod Addresses
pub mod Provider
pub mod Restore
pub mod Waiting
pub mod Ending
pub mod Torn
mod Tests
