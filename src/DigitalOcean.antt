-- ===== src/DigitalOcean.antt =====
-- petri/core/provider/digitalocean: the provider that runs each task on a droplet of its own.
pub mod Types
pub mod Config
pub mod Task
pub mod Provider
pub mod Kept
pub mod Steps
pub mod Creation
pub mod Operations
pub mod Deleting
pub mod Erased
pub mod Regions
mod Tests
