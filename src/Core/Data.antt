-- ===== src/Core/Data.antt =====
-- The data of crates/thicket-core/src: error.rs, capability.rs, and the structs of identity.rs and
-- record.rs. A `BTreeMap` is an association list, a `u64` a number.
use thicket_ai.Base.{
  ℕ, String, ◌≡◌, ◌↔◌, Bool, true, Option, none, List, [], Bytes, Eq, ℕ_eq, list_eq, list_eq_iff,
  ap,
}
use thicket_ai.Base.Dict.{Dict}

-- The display text of a `Serialization` error is kept as it came from the encoder.
pub data Error : Type 0 where
  serialization : String → Error
  bad_key bad_sig verify_failed id_mismatch : Error
  no_valid_endorsement endorsement_expired revoked bad_endorsement : Error

-- `Id`
pub record ResourceId : Type 0 where
  pub as_id_bytes : Bytes

abbrev pub id_eq : ResourceId → ResourceId → Bool
id_eq a b = list_eq a.as_id_bytes b.as_id_bytes

pub id_eq_iff : (a b : ResourceId) → (id_eq a b ≡ true) ↔ (a ≡ b)
id_eq_iff a b = (
  (λ h. ap (λ x. record { as_id_bytes = x }) ((list_eq_iff a.as_id_bytes b.as_id_bytes).0 h)),
  (λ e. (list_eq_iff a.as_id_bytes b.as_id_bytes).1 (ap (λ (x : ResourceId). x.as_id_bytes) e)),
)

instance abbrev pub ResourceId_eq : Eq ResourceId
ResourceId_eq = record { same = id_eq; same_iff = id_eq_iff }

pub data Visibility : Type 0 where
  public unlisted private : Visibility

pub record Io : Type 0 where
  pub input : String
  pub output : String

pub record Capability : Type 0 where
  pub kind : String
  pub description : String
  pub io : Option Io
  pub tags : List String
  pub modalities : List String
  pub envelope : Dict String String

-- `Capability::new` and `Capability::with_tags`
abbrev pub new_capability : String → String → Capability
new_capability kind description = record {
  kind = kind;
  description = description;
  io = none;
  tags = [];
  modalities = [];
  envelope = [];
}

abbrev pub with_tags : Capability → List String → Capability
with_tags cap tags = record cap { tags = tags }

pub record Locator : Type 0 where
  pub protocol : String
  pub endpoint : String

pub record Lease : Type 0 where
  pub ttl : ℕ
  pub issued_at : ℕ
  pub expires_at : ℕ

-- The keys: the 32 bytes of an Ed25519 signing key.
pub record RootKey : Type 0 where
  pub signing : Bytes

pub record WorkingKey : Type 0 where
  pub signing : Bytes

pub record EndorsementView : Type 0 where
  pub working_pub : Bytes
  pub not_before : ℕ
  pub not_after : ℕ

pub record RevocationView : Type 0 where
  pub working_pub : Bytes
  pub issued_at : ℕ

pub record KeyEndorsement : Type 0 where
  pub working_pub : Bytes
  pub not_before : ℕ
  pub not_after : ℕ
  pub root_sig : Bytes

pub record Revocation : Type 0 where
  pub working_pub : Bytes
  pub issued_at : ℕ
  pub root_sig : Bytes

pub record RecordPayload : Type 0 where
  pub schema : String
  pub id : ResourceId
  pub root_public_key : Bytes
  pub keys : List KeyEndorsement
  pub kind : String
  pub locators : List Locator
  pub capabilities : List Capability
  pub profile : Dict String String
  pub supports : Dict String String
  pub visibility : Visibility
  pub lease : Option Lease
  pub version : ℕ
  pub ext : Dict String String

pub record SignedRecord : Type 0 where
  pub payload : RecordPayload
  pub signer_pub : Bytes
  pub signature : Bytes
