-- ===== src/Chain.antt =====
-- petri/cosmos/chain and petri/core/types: a chain of validators and nodes on a provider.
pub mod Types
pub mod Config
pub mod Create
pub mod Peers
pub mod Setup
pub mod Counted
pub mod Harmless
pub mod Calm
pub mod Started
pub mod Waiting
pub mod Reached
pub mod Populated
mod Tests
