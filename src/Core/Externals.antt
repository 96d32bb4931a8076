-- ===== src/Core/Externals.antt =====
-- What crates/thicket-core calls and does not implement: SHA-256 (`sha2`), Ed25519
-- (`ed25519_dalek`) and the CBOR encoder (`ciborium`).
use thicket_ai.Base.{String, ◌≡◌, Bool, true, Result, Bytes, length}
use thicket_ai.Core.Data.{EndorsementView, RevocationView, RecordPayload}

-- `ciborium::into_writer` at one type: the bytes written, or the text of the failure.
abbrev pub Writer : Type 0 → Type 0
Writer T = T → Result String Bytes

-- `ciborium::from_reader` at one type
abbrev pub Reader : Type 0 → Type 0
Reader T = Bytes → Result String T

pub record Primitives : Type 0 where
  -- `Sha256`
  pub digest : Bytes → Bytes
  -- whether `VerifyingKey::from_bytes` takes these 32 bytes
  pub is_point : Bytes → Bool
  -- `Verifier::verify`, of key, message and signature
  pub vk_verify : Bytes → Bytes → Bytes → Bool
  -- `SigningKey::verifying_key` and `Signer::sign`
  pub verifying_key : Bytes → Bytes
  pub signing_key_sign : Bytes → Bytes → Bytes

pub record Kernel : Type 0 where
  pub crypto : Primitives
  pub open crypto use *
  pub write_endorsement : Writer EndorsementView
  pub write_revocation : Writer RevocationView
  pub write_record : Writer RecordPayload

-- What the code relies on: the lengths that the libraries fix by their types, and that a
-- signature verifies under the key that made it.
pub record PrimitiveLaws (c : Primitives) : Type 0 where
  pub length-digest : (b : Bytes) → length (c.digest b) ≡ 32
  pub length-verifying_key : (s : Bytes) → length (c.verifying_key s) ≡ 32
  pub length-sign : (s m : Bytes) → length (c.signing_key_sign s m) ≡ 64
  pub is_point-verifying_key : (s : Bytes) → c.is_point (c.verifying_key s) ≡ true
  pub verify-sign :
      (s m : Bytes) → c.vk_verify (c.verifying_key s) m (c.signing_key_sign s m) ≡ true
