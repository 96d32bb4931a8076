-- ===== src/Core/Identity/Printing.antt =====
-- crates/thicket-core/src/identity.rs, the text forms of an id and the making of keys. The crate
-- `hex` is a parameter; the 32 bytes that a key is generated from are an argument.
use thicket_ai.Base.{
  String, ◌≡◌, refl, not, Option, some, Result, ok, ◌>>=◌, ◌>>◌, reject_if, ok_or, Bytes, length,
  ◌==◌, ℕ_eq,
}
use thicket_ai.Core.Data.{Error, bad_key, ResourceId, RootKey, WorkingKey}
use thicket_ai.Core.Externals.{Kernel, PrimitiveLaws}
use thicket_ai.Core.Crypto.{sha256}
use thicket_ai.Core.Identity.{from_root_public}

pub record Hex : Type 0 where
  pub encode : Bytes → String
  pub decode : String → Option Bytes

-- `RootKey::from_seed`, `RootKey::generate` and those of `WorkingKey`
abbrev pub root_from_seed : Bytes → RootKey
root_from_seed seed = record { signing = seed }

abbrev pub working_from_seed : Bytes → WorkingKey
working_from_seed seed = record { signing = seed }

abbrev pub generate_root : Bytes → RootKey
generate_root random = record { signing = random }

abbrev pub generate_working : Bytes → WorkingKey
generate_working random = record { signing = random }

module _ (h : Hex) where
  -- `Id::hex`, which `Display` prints
  unfoldable pub hex : ResourceId → String
  hex id = h.encode id.as_id_bytes

  unfoldable pub display : ResourceId → String
  unfolding hex
  display id = hex id

  -- `Id::from_hex`
  unfoldable pub from_hex : String → Result Error ResourceId
  from_hex s = do
    bytes ← ok_or (h.decode s) bad_key
    reject_if (not (length bytes == 32)) bad_key
    ok (record { as_id_bytes = bytes })

module _ (k : Kernel) (laws : PrimitiveLaws k.crypto) (h : Hex) where
  -- A root key of 32 bytes has an id; its hex form is read back as the same id, where the decoder
  -- undoes the encoder.
  pub from_hex-display :
      (root_pub : Bytes)
      → length root_pub ≡ 32
      → ((b : Bytes) → h.decode (h.encode b) ≡ some b)
      → (id : ResourceId) × (from_root_public k root_pub ≡ ok id)
        × (from_hex h (display h id) ≡ ok id)
  unfolding from_root_public from_hex display hex sha256
  from_hex-display root_pub len undo = (
    record { as_id_bytes = k.digest root_pub },
    rw len refl,
    rw (undo (k.digest root_pub), laws.length-digest root_pub) refl,
  )
