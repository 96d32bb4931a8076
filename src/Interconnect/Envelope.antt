-- ===== src/Interconnect/Envelope.antt =====
-- crates/thicket-interconnect/src/envelope.rs, less `Context`. The fresh bytes of a new
-- correlation come from the system's randomness, and are an argument.
pub mod Signing
use thicket_ai.Base.{
  ℕ, String, Bool, false, not, Option, none, some, List, [], ⊤, Result, ok, err, ◌>>=◌, ◌>>◌,
  reject_if, map_err, Bytes, ◌==◌, List_eq, ℕ_eq,
}
use thicket_ai.Core.{ResourceId, WorkingKey, KeyEndorsement}
use thicket_ai.Core.Crypto.{signing_bytes, verify_signature}
use thicket_ai.Core.Identity.{RevocationSet, working_public, working_sign, verify_working_key}
use thicket_ai.Interconnect.Data.{
  Error, core, bad_envelope, EnvelopeType, ErrorCode, Context, no_context, Grant, EnvelopePayload,
  SignedEnvelope,
}
use thicket_ai.Interconnect.Externals.{Fabric}
use thicket_ai.Interconnect.Context.{deadline_passed}

abbrev pub envelope_domain : String
envelope_domain = "thicket-envelope-v1"

-- `EnvelopePayload::base`
unfoldable pub base : ResourceId → ResourceId → EnvelopeType → Bytes → EnvelopePayload
base from to typ correlation = record {
  v = 1;
  from = from;
  to = to;
  typ = typ;
  capability = none;
  correlation = correlation;
  content_type = none;
  context = no_context;
  auth = none;
  stream_seq = none;
  stream_end = false;
  error_info = none;
  body = [];
  ext = [];
}

unfoldable pub request : Bytes → ResourceId → ResourceId → String → EnvelopePayload
unfolding base
request fresh from to capability = record (base from to EnvelopeType.request fresh) {
  capability = some capability;
}

unfoldable pub response : ResourceId → ResourceId → Bytes → EnvelopePayload
unfolding base
response from to correlation = base from to EnvelopeType.response correlation

unfoldable pub error : ResourceId → ResourceId → Bytes → ErrorCode → String → EnvelopePayload
unfolding base
error from to correlation code message = record (base from to EnvelopeType.error correlation) {
  error_info = some (record { code = code; message = message });
}

unfoldable pub stream_chunk : ResourceId → ResourceId → Bytes → ℕ → Bool → EnvelopePayload
unfolding base
stream_chunk from to correlation seq end =
    record (base from to EnvelopeType.stream_chunk correlation) {
      stream_seq = some seq;
      stream_end = end;
    }

unfoldable pub event : Bytes → ResourceId → ResourceId → String → EnvelopePayload
unfolding base
event fresh from to topic = record (base from to EnvelopeType.event fresh) {
  capability = some topic;
}

unfoldable pub with_body : EnvelopePayload → Bytes → EnvelopePayload
with_body e body = record e { body = body }

unfoldable pub with_deadline : EnvelopePayload → ℕ → EnvelopePayload
with_deadline e deadline = record e { context = record e.context { deadline = some deadline } }

unfoldable pub with_context : EnvelopePayload → Context → EnvelopePayload
with_context e context = record e { context = context }

unfoldable pub with_auth : EnvelopePayload → Grant → EnvelopePayload
with_auth e grant = record e { auth = some grant }

-- `SignedEnvelope::is_expired`
unfoldable pub is_expired : SignedEnvelope → ℕ → Bool
unfolding deadline_passed
is_expired e now = deadline_passed e.payload.context now

module _ (f : Fabric) where
  -- `EnvelopePayload::signing_input`
  unfoldable pub envelope_signing_input : EnvelopePayload → Result Error Bytes
  envelope_signing_input payload =
      map_err core (signing_bytes f.write_envelope envelope_domain payload)

  -- `EnvelopePayload::sign`
  unfoldable pub sign_envelope : EnvelopePayload → WorkingKey → Result Error SignedEnvelope
  sign_envelope payload working = do
    msg ← map_err core (signing_bytes f.write_envelope envelope_domain payload)
    ok (record {
      payload = payload;
      signer_pub = working_public f.kernel working;
      signature = working_sign f.kernel working msg;
    })

  unfoldable pub verify_with_key : SignedEnvelope → Bytes → Result Error ⊤
  verify_with_key e working_pub = do
    reject_if (not (e.signer_pub == working_pub)) bad_envelope
    msg ← map_err core (signing_bytes f.write_envelope envelope_domain e.payload)
    map_err (λ _. bad_envelope) (verify_signature f.crypto e.signer_pub msg e.signature)

  -- `SignedEnvelope::verify`
  unfoldable pub verify_envelope :
      SignedEnvelope → Bytes → List KeyEndorsement → ℕ → RevocationSet → Result Error ⊤
  verify_envelope e sender_root_pub sender_endorsements now revocations = do
    map_err core (
        verify_working_key f.kernel sender_root_pub e.payload.from sender_endorsements e.signer_pub
          now revocations)
    msg ← map_err core (signing_bytes f.write_envelope envelope_domain e.payload)
    map_err (λ _. bad_envelope) (verify_signature f.crypto e.signer_pub msg e.signature)
