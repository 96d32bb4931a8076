-- ===== src/Core.antt =====
-- crates/thicket-core: identity, signed records, checkpoints.
mod Data
mod Externals
pub mod Crypto
pub mod Identity
pub mod Record
pub mod Checkpoint
pub use Data.*
pub use Externals.*
