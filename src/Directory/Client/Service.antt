-- ===== src/Directory/Client/Service.antt =====
-- A client at a directory that serves it: each call over the wire is the operation of the registry.
use thicket_ai.Base.{
  ℕ, ◌≡◌, refl, inl, inr, String, true, List, [], ◌∷◌, Result, ok, err, Bytes, String_eq, arith,
  Result-cases,
}
use thicket_ai.Base.Float.{Float}
use thicket_ai.Core.{Kernel, ResourceId, ResourceId_eq, WorkingKey}
use thicket_ai.Core.Crypto.{signing_bytes}
use thicket_ai.Interconnect.{Fabric}
use thicket_ai.Interconnect.Data.{EnvelopePayload, SignedEnvelope}
use thicket_ai.Interconnect.Envelope
use thicket_ai.Interconnect.Envelope.{
  envelope_domain, request, response, with_body, base, sign_envelope,
}
use thicket_ai.Net
use thicket_ai.Net.{VerifiedPeer, interconnect, timeout}
use thicket_ai.Net.Server.{Request, Reply, is_request, to_request, to_response, serve_conn}
use thicket_ai.Registry.{Embedder, Registry}
use thicket_ai.Directory.{Wire, handle}
use thicket_ai.Directory.Client
use thicket_ai.Directory.Client.{
  Caller, ClientCodec, DirectoryClient, remote, codec, message_of, reply_body, found_or_none,
  decoded,
}

-- what a client makes of a reply
abbrev pub of_reply : Reply → Result Client.Error Bytes
of_reply (Reply.ok body) = ok body
of_reply (Reply.error code message) = err (remote message)

pub sign_envelope_payload :
    (f : Fabric) (p : EnvelopePayload) (key : WorkingKey) (e : SignedEnvelope)
    → sign_envelope f p key ≡ ok e
    → e.payload ≡ p
unfolding sign_envelope
sign_envelope_payload f p key e h =
    elim (Result-cases (signing_bytes f.write_envelope envelope_domain p)) [
      | inl (x, failed) ↦ absurd (ground arith)
      | inr (m, written) ↦ ground arith
    ]

-- the two ends of a connection between a client and a directory
pub record Ends : Type 0 where
  pub client_key : WorkingKey
  pub server_key : WorkingKey
  pub server_id : ResourceId
  -- the client, as the directory authenticated it
  pub peer : VerifiedPeer

module _ (f : Fabric) (w : Wire) (k : Kernel) {fl : Float} (embedder : Embedder fl) (ends : Ends)
    (now : ℕ) where
  -- the first of the server's responses, signed; a response that cannot be signed is not sent
  unfoldable pub answer : List EnvelopePayload → Result Net.Error SignedEnvelope
  answer [] = err timeout
  answer (resp ∷ rest) = elim (sign_envelope f resp ends.server_key) [
    | err e ↦ err timeout
    | ok signed ↦ ok signed
  ]

  pub answer_signed :
      (p : EnvelopePayload) (resp : SignedEnvelope)
      → sign_envelope f p ends.server_key ≡ ok resp
      → answer (p ∷ []) ≡ ok resp
  unfolding answer
  answer_signed p resp h = rw (h, answer) refl

  -- a call whose envelope and whose response arrive, at a directory that serves it at `now`
  unfoldable pub exchange :
      Registry fl → EnvelopePayload → Result Net.Error SignedEnvelope × Registry fl
  unfolding answer serve_conn
  exchange reg payload = elim (sign_envelope f payload ends.client_key) [
    | err e ↦ (err (interconnect e), reg)
    | ok env ↦
        let replied =
          serve_conn ends.server_id ends.peer (λ s req. handle w k embedder s req now) reg
            (env ∷ []) in
        (answer replied.0, replied.1)
  ]

  abbrev pub served : Caller
  served = record { State = Registry fl; call = exchange }

  -- Signing never fails: the encoder writes every envelope.
  abbrev pub Signs : Type 0
  Signs =
      (p : EnvelopePayload) (key : WorkingKey)
      → (e : SignedEnvelope) × (sign_envelope f p key ≡ ok e)

  module _ (c : ClientCodec) (d : DirectoryClient) (fresh : Bytes) (signs : Signs) where
    answer_reply :
        (env : SignedEnvelope) (reply : Reply)
        → (resp : SignedEnvelope) × (answer (to_response ends.server_id ends.peer env reply ∷ [])
            ≡ ok resp)
          × (reply_body resp.payload.typ resp ≡ of_reply reply)
    unfolding answer to_response response with_body base Envelope.error
    answer_reply env (Reply.ok body) =
        let p = to_response ends.server_id ends.peer env (Reply.ok body) in
        let s = signs p ends.server_key in
        (s.0, rw (s.1, answer) refl, rw (sign_envelope_payload f p ends.server_key s.0 s.1) refl)
    answer_reply env (Reply.error code message) =
        let p = to_response ends.server_id ends.peer env (Reply.error code message) in
        let s = signs p ends.server_key in
        (s.0, rw (s.1, answer) refl, rw (sign_envelope_payload f p ends.server_key s.0 s.1) refl)

    serve_one :
        (env : SignedEnvelope) (reg : Registry fl)
        → is_request env.payload.typ ≡ true
        → serve_conn ends.server_id ends.peer
            (λ s req. handle w k embedder s req now)
            reg
            (env ∷ [])
          ≡ (
            to_response ends.server_id ends.peer env
                  (handle w k embedder reg (to_request ends.server_id ends.peer env) now).0
                ∷ [],
            (handle w k embedder reg (to_request ends.server_id ends.peer env) now).1,
          )
    unfolding serve_conn
    serve_one env reg h = rw (h, serve_conn) refl

    pub exchange_answers :
        (p : EnvelopePayload) (env resp : SignedEnvelope) (reg : Registry fl)
        → sign_envelope f p ends.client_key ≡ ok env
        → is_request env.payload.typ ≡ true
        → answer (
            to_response ends.server_id ends.peer env
              (handle w k embedder reg (to_request ends.server_id ends.peer env) now).0
            ∷ [])
          ≡ ok resp
        → exchange reg p
          ≡ (ok resp, (handle w k embedder reg (to_request ends.server_id ends.peer env) now).1)
    unfolding exchange
    exchange_answers p env resp reg signed asks answers =
        rw (signed, exchange, serve_one env reg asks, answers) refl

    pub call_served :
        (capability : String) (body : Bytes) (reg : Registry fl)
        → (req : Request) × (req.capability ≡ capability)
          × (req.body ≡ body)
          × (req.peer ≡ ends.peer)
          × (Client.call served c d fresh capability body reg
              ≡ (of_reply (handle w k embedder reg req now).0, (handle w k embedder reg req now).1))
    unfolding Client.call to_request request with_body base
    call_served capability body reg =
        let p = with_body (request fresh d.local_id d.directory_id capability) body in
        let s = signs p ends.client_key in
        let e : s.0.payload ≡ p = sign_envelope_payload f p ends.client_key s.0 s.1 in
        let req = to_request ends.server_id ends.peer s.0 in
        let a = answer_reply s.0 (handle w k embedder reg req now).0 in
        (
          req,
          rw e refl,
          rw e refl,
          refl,
          rw (exchange_answers p s.0 a.0 reg s.1 (rw e refl) a.1, Client.call, a.2) refl,
        )
