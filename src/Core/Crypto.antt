-- ===== src/Core/Crypto.antt =====
-- crates/thicket-core/src/crypto.rs
pub mod Laws
use thicket_ai.Base.{
  ℕ, String, Bool, not, ⊤, Result, ok, err, ◌>>=◌, ◌>>◌, reject_if, map_err, map_ok, Bytes,
  as_bytes, ◌∷◌, ◌++◌, length, ◌==◌, ℕ_eq,
}
use thicket_ai.Core.Data.{Error, serialization, bad_key, bad_sig, verify_failed}
use thicket_ai.Core.Externals.{Primitives, Writer}

-- The bytes signed for a payload: the domain, a zero byte, and the encoded payload.
unfoldable pub signing_bytes : {T : Type 0} → Writer T → String → T → Result Error Bytes
signing_bytes into_writer domain payload =
    map_ok (λ cbor. as_bytes domain ++ (0 ∷ cbor)) (map_err serialization (into_writer payload))

module _ (c : Primitives) where
  unfoldable pub sha256 : Bytes → Bytes
  sha256 bytes = c.digest bytes

  -- A parsed key or signature is given by its bytes.
  unfoldable pub vk_from_bytes : Bytes → Result Error Bytes
  vk_from_bytes bytes = do
    reject_if (not (length bytes == 32)) bad_key
    reject_if (not (c.is_point bytes)) bad_key
    ok bytes

  unfoldable pub sig_from_bytes : Bytes → Result Error Bytes
  sig_from_bytes bytes = do reject_if (not (length bytes == 64)) bad_sig; ok bytes

  unfoldable pub verify_raw : Bytes → Bytes → Bytes → Result Error ⊤
  unfolding vk_from_bytes sig_from_bytes
  verify_raw pub_bytes msg sig_bytes = do
    vk ← vk_from_bytes pub_bytes
    sig ← sig_from_bytes sig_bytes
    reject_if (not (c.vk_verify vk msg sig)) verify_failed

  unfoldable pub verify_signature : Bytes → Bytes → Bytes → Result Error ⊤
  verify_signature pub_bytes msg sig_bytes = verify_raw pub_bytes msg sig_bytes
