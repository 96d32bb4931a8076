-- ===== src/Tests.antt =====
-- Primitives that can be run, and the results applied to concrete data.
pub mod World
pub mod Primitives
pub mod Signing
pub mod Grants
mod Messages
pub mod Catalog
pub mod Link
mod Expiry
mod Words
pub mod Queues
pub mod Wires
mod Sessions
mod Network
pub mod Channel
pub mod Dialing
mod Linking
pub mod Directories
mod Vouching
