-- ===== src/Core/Record.antt =====
-- crates/thicket-core/src/record.rs
pub mod Signing
use thicket_ai.Base.{ℕ, String, ⊤, map_err, Result, ok, err, ◌>>=◌, ◌>>◌, Bytes}
use thicket_ai.Core.Data.{Error, serialization, WorkingKey, RecordPayload, SignedRecord}
use thicket_ai.Core.Externals.{Kernel, Writer, Reader}
use thicket_ai.Core.Crypto.{signing_bytes, verify_raw}
use thicket_ai.Core.Identity.{working_sign, working_public, RevocationSet, verify_working_key}

abbrev pub record_domain : String
record_domain = "thicket-record-v1"

module _ (k : Kernel) where
  -- `RecordPayload::signing_input`
  unfoldable pub record_signing_input : RecordPayload → Result Error Bytes
  record_signing_input payload = signing_bytes k.write_record record_domain payload

  -- `RecordPayload::sign`
  unfoldable pub sign_record : RecordPayload → WorkingKey → Result Error SignedRecord
  sign_record payload working = do
    msg ← signing_bytes k.write_record record_domain payload
    ok (record {
      payload = payload;
      signer_pub = working_public k working;
      signature = working_sign k working msg;
    })

  -- `SignedRecord::verify`
  unfoldable pub verify_record : SignedRecord → ℕ → RevocationSet → Result Error ⊤
  verify_record r now revocations = do
    verify_working_key k r.payload.root_public_key r.payload.id r.payload.keys r.signer_pub now
        revocations
    msg ← signing_bytes k.write_record record_domain r.payload
    verify_raw k.crypto r.signer_pub msg r.signature

-- The encodings of a whole record: `to_cbor`, `from_cbor`, `to_json` and `from_json`.
unfoldable pub record_to_cbor : Writer SignedRecord → SignedRecord → Result Error Bytes
record_to_cbor into_writer r = map_err serialization (into_writer r)

unfoldable pub record_from_cbor : Reader SignedRecord → Bytes → Result Error SignedRecord
record_from_cbor from_reader bytes = map_err serialization (from_reader bytes)

unfoldable pub record_to_json :
    (SignedRecord → Result String String) → SignedRecord → Result Error String
record_to_json to_string r = map_err serialization (to_string r)

unfoldable pub record_from_json :
    (String → Result String SignedRecord) → String → Result Error SignedRecord
record_from_json from_str s = map_err serialization (from_str s)
