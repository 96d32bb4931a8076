-- ===== src/Directory/Client.antt =====
-- crates/thicket-directory/src: client.rs and error.rs. The connection is an interface: what `call`
-- answers to a payload, in a state of the world. The fresh correlation of a request is an argument.
pub mod Service
pub mod Promise
pub mod Refinement
pub mod Simulation
pub mod Wired
pub mod Session
use thicket_ai.Base.{
  ℕ, String, Option, none, some, List, ⊤, Result, ok, err, map_err, map_ok, Bytes,
}
use thicket_ai.Core
use thicket_ai.Core.{ResourceId, SignedRecord}
use thicket_ai.Interconnect.Data.{EnvelopeType, ErrorInfo, EnvelopePayload, SignedEnvelope}
use thicket_ai.Interconnect.Envelope.{request, with_body}
use thicket_ai.Net
use thicket_ai.Registry.{Need}
use thicket_ai.Directory.{
  RenewArgs, register_cap, resolve_cap, search_cap, renew_cap, deregister_cap,
}

pub data Error : Type 0 where
  net : Net.Error → Error
  core : Core.Error → Error
  codec remote : String → Error

-- `Conn::call` as its clients see it
pub record Caller : Type 1 where
  pub State : Type 0
  pub call : State → EnvelopePayload → Result Net.Error SignedEnvelope × State

-- `to_cbor` and `from_cbor` at the types that the client writes and reads
pub record ClientCodec : Type 0 where
  pub write_record : SignedRecord → Result String Bytes
  pub write_id : ResourceId → Result String Bytes
  pub write_need : Need → Result String Bytes
  pub write_renew : RenewArgs → Result String Bytes
  pub read_record : Bytes → Result String SignedRecord
  pub read_records : Bytes → Result String (List SignedRecord)
  pub read_expiry : Bytes → Result String ℕ

pub record DirectoryClient : Type 0 where
  pub local_id : ResourceId
  pub directory_id : ResourceId

-- the text of an error reply
abbrev pub message_of : Option ErrorInfo → String
message_of none = ""
message_of (some info) = info.message

-- the `match` on the type of the reply
abbrev pub reply_body : EnvelopeType → SignedEnvelope → Result Error Bytes
reply_body EnvelopeType.error resp = err (remote (message_of resp.payload.error_info))
reply_body EnvelopeType.response resp = ok resp.payload.body
reply_body EnvelopeType.request resp = ok resp.payload.body
reply_body EnvelopeType.event resp = ok resp.payload.body
reply_body EnvelopeType.stream_chunk resp = ok resp.payload.body
reply_body EnvelopeType.cancel resp = ok resp.payload.body

-- what `resolve` makes of the reply
abbrev pub found_or_none :
    (Bytes → Result String SignedRecord) → Result Error Bytes → Result Error (Option SignedRecord)
found_or_none read (ok body) = map_ok some (map_err codec (read body))
found_or_none read (err (remote message)) = ok none
found_or_none read (err (net e)) = err (net e)
found_or_none read (err (core e)) = err (core e)
found_or_none read (err (codec e)) = err (codec e)

-- what `search` and `renew` make of the reply
abbrev pub decoded : {A : Type 0} → (Bytes → Result String A) → Result Error Bytes → Result Error A
decoded read (ok body) = map_err codec (read body)
decoded read (err e) = err e

module _ (conn : Caller) (c : ClientCodec) (d : DirectoryClient) (fresh : Bytes) where
  -- `DirectoryClient::call`
  unfoldable pub call : String → Bytes → conn.State → Result Error Bytes × conn.State
  unfolding request with_body
  call capability body s =
      let answer =
        conn.call s (with_body (request fresh d.local_id d.directory_id capability) body) in
      (elim answer.0 [ err e ↦ err (net e) | ok resp ↦ reply_body resp.payload.typ resp ], answer.1)

  unfoldable pub register : SignedRecord → conn.State → Result Error ⊤ × conn.State
  unfolding call
  register r s = elim (c.write_record r) [
    | err e ↦ (err (codec e), s)
    | ok body ↦ let replied = call register_cap body s in (map_ok (λ _. tt) replied.0, replied.1)
  ]

  unfoldable pub resolve : ResourceId → conn.State → Result Error (Option SignedRecord) × conn.State
  unfolding call
  resolve id s = elim (c.write_id id) [
    | err e ↦ (err (codec e), s)
    | ok body ↦
        let replied = call resolve_cap body s in (found_or_none c.read_record replied.0, replied.1)
  ]

  unfoldable pub search : Need → conn.State → Result Error (List SignedRecord) × conn.State
  unfolding call
  search need s = elim (c.write_need need) [
    | err e ↦ (err (codec e), s)
    | ok body ↦
        let replied = call search_cap body s in (decoded c.read_records replied.0, replied.1)
  ]

  unfoldable pub renew : ℕ → conn.State → Result Error ℕ × conn.State
  unfolding call
  renew ttl s = elim (c.write_renew (record { id = d.local_id; ttl = ttl })) [
    | err e ↦ (err (codec e), s)
    | ok body ↦ let replied = call renew_cap body s in (decoded c.read_expiry replied.0, replied.1)
  ]

  unfoldable pub deregister : conn.State → Result Error ⊤ × conn.State
  unfolding call
  deregister s = elim (c.write_id d.local_id) [
    | err e ↦ (err (codec e), s)
    | ok body ↦ let replied = call deregister_cap body s in (map_ok (λ _. tt) replied.0, replied.1)
  ]
