-- ===== src/Net.antt =====
-- crates/thicket-net/src: error.rs and identity.rs. A key from the system's randomness is an
-- argument, and so are the clock and the texts of errors from other libraries.
pub mod Framing
pub mod Secure
pub mod Sealing
pub mod Server
pub mod Routing
pub mod Conn
pub mod Establish
pub mod Gated
pub mod Wired
use thicket_ai.Base.{ℕ, String, List, [], ◌∷◌, Result, ok, ◌>>=◌, ◌+◌, ◌%◌, Bytes, u64_mod}
use thicket_ai.Core
use thicket_ai.Core.{ResourceId, WorkingKey, RootKey, KeyEndorsement, Kernel}
use thicket_ai.Core.Identity.{endorse, root_id, root_public, working_public}
use thicket_ai.Interconnect.Data

pub data Error : Type 0 where
  io codec crypto : String → Error
  handshake peer_mismatch timeout closed frame_too_large : Error
  core : Core.Error → Error
  interconnect : Data.Error → Error

pub record LocalIdentity : Type 0 where
  pub id : ResourceId
  pub root_public_key : Bytes
  pub endorsements : List KeyEndorsement
  pub working : WorkingKey

pub record VerifiedPeer : Type 0 where
  pub id : ResourceId
  pub working_pub : Bytes
  pub key_not_after : ℕ

-- `LocalIdentity::from_root`, with the working key it generates; an error is the panic of `expect`
unfoldable pub from_root : Kernel → RootKey → WorkingKey → ℕ → ℕ → Result Core.Error LocalIdentity
from_root k root working now valid_secs = do
  endorsement ← endorse k root (working_public k working) 0 ((now + valid_secs) % u64_mod)
  id ← root_id k root
  ok (record {
    id = id;
    root_public_key = root_public k root;
    endorsements = endorsement ∷ [];
    working = working;
  })
