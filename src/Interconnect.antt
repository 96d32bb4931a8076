-- ===== src/Interconnect.antt =====
-- crates/thicket-interconnect: envelopes and their context, grants, the handshake's proof.
pub mod Data
mod Externals
pub mod Context
pub mod Grant
pub mod Envelope
pub mod Handshake
pub use Externals.*
