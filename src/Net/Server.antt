-- ===== src/Net/Server.antt =====
-- crates/thicket-net/src/server.rs: one connection, as the list of envelopes that it receives. A
-- handler is a function of a state; the response goes to the connection's writer.
use thicket_ai.Base.{
  ◌≡◌, refl, String, Bool, true, false, Option, none, some, List, [], ◌∷◌, map, filter, Bytes,
  arith, if◌then◌else◌, Result,
}
use thicket_ai.Core.{ResourceId}
use thicket_ai.Interconnect.Data.{EnvelopeType, ErrorCode, Grant, EnvelopePayload, SignedEnvelope}
use thicket_ai.Interconnect.Envelope
use thicket_ai.Interconnect.Envelope.{response, with_body, base}
use thicket_ai.Net
use thicket_ai.Net.{LocalIdentity, VerifiedPeer}

pub record Request : Type 0 where
  pub capability : String
  pub body : Bytes
  pub auth : Option Grant
  pub peer : VerifiedPeer
  pub envelope : SignedEnvelope

pub data Reply : Type 0 where
  ok : Bytes → Reply
  error : ErrorCode → String → Reply

abbrev pub is_request : EnvelopeType → Bool
is_request EnvelopeType.request = true
is_request EnvelopeType.response = false
is_request EnvelopeType.event = false
is_request EnvelopeType.error = false
is_request EnvelopeType.stream_chunk = false
is_request EnvelopeType.cancel = false

-- `Option::unwrap_or_default`
abbrev pub or_empty : Option String → String
or_empty none = ""
or_empty (some s) = s

module _ (local_id : ResourceId) (peer : VerifiedPeer) where
  unfoldable pub to_request : SignedEnvelope → Request
  to_request env = record {
    capability = or_empty env.payload.capability;
    body = env.payload.body;
    auth = env.payload.auth;
    peer = peer;
    envelope = env;
  }

  unfoldable pub to_response : SignedEnvelope → Reply → EnvelopePayload
  unfolding response with_body base Envelope.error
  to_response env (Reply.ok body) =
      with_body (response local_id env.payload.from env.payload.correlation) body
  to_response env (Reply.error code message) =
      Envelope.error local_id env.payload.from env.payload.correlation code message

  pub to_response_fields :
      (env : SignedEnvelope) (reply : Reply)
      → ((to_response env reply).correlation ≡ env.payload.correlation)
        × ((to_response env reply).to ≡ env.payload.from)
        × ((to_response env reply).from ≡ local_id)
  unfolding to_response response with_body base Envelope.error
  to_response_fields env (Reply.ok body) = (refl, refl, refl)
  to_response_fields env (Reply.error code message) = (refl, refl, refl)

  module _ {S : Type 0} (handler : S → Request → Reply × S) where
    -- `serve_conn`
    unfoldable pub serve_conn : S → List SignedEnvelope → List EnvelopePayload × S
    serve_conn s [] = ([], s)
    serve_conn s (env ∷ inbound) =
        let handled = handler s (to_request env) in
        let answered = serve_conn handled.1 inbound in
        let skipped = serve_conn s inbound in
        if is_request env.payload.typ
        then (to_response env handled.0 ∷ answered.0, answered.1)
        else skipped

    -- Every request is answered once and nothing else is: the responses carry, in order, the
    -- correlations of the requests, go to their senders, and come from the server.
    pub serve_conn_answers :
        (s : S) (inbound : List SignedEnvelope)
        → map {B = Bytes × ResourceId × ResourceId}
            (λ r. (r.correlation, r.to, r.from))
            (serve_conn s inbound).0
          ≡ map {B = Bytes × ResourceId × ResourceId}
              (λ e. (e.payload.correlation, e.payload.from, local_id))
              (filter (λ e. is_request e.payload.typ) inbound)
    unfolding serve_conn
    serve_conn_answers s [] = refl
    serve_conn_answers s (env ∷ inbound) =
        let f = to_response_fields env (handler s (to_request env)).0 in
        ground (
          arith,
          serve_conn_answers (handler s (to_request env)).1 inbound,
          serve_conn_answers s inbound,
        )

-- `Server`, with its handler on a state
pub record Server (S : Type 0) : Type 0 where
  pub identity : LocalIdentity
  pub handler : S → Request → Reply × S

-- `Server::new`
unfoldable pub new_server : {S : Type 0} → LocalIdentity → (S → Request → Reply × S) → Server S
new_server identity handler = record { identity = identity; handler = handler }

-- the task that `Server::serve` starts for a socket, of what `Conn::accept` made of it
unfoldable pub serve_accepted :
    {S : Type 0}
    → Server S
    → Result Net.Error VerifiedPeer
    → S
    → List SignedEnvelope
    → List EnvelopePayload × S
unfolding serve_conn
serve_accepted server (Result.err e) s inbound = ([], s)
serve_accepted server (Result.ok peer) s inbound =
    serve_conn server.identity.id peer server.handler s inbound
