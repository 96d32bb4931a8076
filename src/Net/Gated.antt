-- ===== src/Net/Gated.antt =====
-- crates/thicket-net/examples/grant_gated_server.rs: the handler that serves only callers with a
-- grant. It reads the clock for each request: `clock n` is the time at request number n, and the
-- handler's state is the number of the next request. The identity of the server is the section's.
use thicket_ai.Base.{
  ℕ, suc, ◌≡◌, inl, inr, refl, Bool, true, false, none, some, List, [], ◌∷◌, Bytes, is_ok,
  if◌then◌else◌, filter, arith, Bool-cases, Option-cases, Result-cases,
}
use thicket_ai.Core.{ResourceId, KeyEndorsement}
use thicket_ai.Core.Identity.{no_revocations}
use thicket_ai.Interconnect.{Fabric}
use thicket_ai.Interconnect.Data.{ErrorCode, Grant, EnvelopePayload, SignedEnvelope}
use thicket_ai.Interconnect.Grant.{verify_grant}
use thicket_ai.Interconnect.Grant.Authority.{Authorizes, verify_grant_iff}
use thicket_ai.Net.{VerifiedPeer}
use thicket_ai.Net.Server.{Request, Reply, is_request, to_request, to_response, serve_conn}

module _ (f : Fabric) (root_pub : Bytes) (endorsements : List KeyEndorsement) where
  -- `authorized`, at the time that it reads
  unfoldable pub is_authorized : Request → ℕ → Bool
  is_authorized req now = elim req.auth [
    | none ↦ false
    | some g ↦ is_ok (
        verify_grant f g root_pub endorsements req.peer.working_pub req.capability now
          no_revocations)
  ]

  unfoldable pub gated_handler : Request → ℕ → Reply
  unfolding is_authorized
  gated_handler req now =
      if is_authorized req now
      then Reply.ok req.body
      else Reply.error ErrorCode.unauthorized "valid grant required"

  -- A request whose grant gives its caller the capability that it asks for, at `now`.
  pub record Granted (now : ℕ) (req : Request) : Type 0 where
    pub grant : Grant
    pub carried : req.auth ≡ some grant
    pub authorizes :
        Authorizes f root_pub endorsements req.peer.working_pub req.capability now no_revocations
          grant

  is_authorized_sound : (req : Request) (now : ℕ) → is_authorized req now ≡ true → Granted now req
  unfolding is_authorized
  is_authorized_sound req now h = elim (Option-cases req.auth) [
    | inl none_carried ↦ absurd (ground arith)
    | inr (g, carried) ↦
        elim (Result-cases (
          verify_grant f g root_pub endorsements req.peer.working_pub req.capability now
            no_revocations)) [
              | inl (e, failed) ↦ absurd (ground arith)
              | inr (u, verified) ↦ record {
                grant = g;
                carried = carried;
                authorizes =
                    (verify_grant_iff f root_pub endorsements req.peer.working_pub req.capability
                        now no_revocations g).0
                      verified;
              }
            ]
  ]

  is_authorized_complete :
      (req : Request) (now : ℕ) → Granted now req → is_authorized req now ≡ true
  unfolding is_authorized
  is_authorized_complete req now granted =
      rw
        (
          granted.carried,
          (verify_grant_iff f root_pub endorsements req.peer.working_pub req.capability now
                no_revocations granted.grant).1
              granted.authorizes,
        )
        refl

  module _ (clock : ℕ → ℕ) (local_id : ResourceId) (peer : VerifiedPeer) where
    -- What a request is answered with at `now`: its body where it was granted, else an error.
    pub data Earned (now : ℕ) (env : SignedEnvelope) (r : EnvelopePayload) : Type 0 where
      granted :
          Granted now (to_request local_id peer env)
          → r ≡ to_response local_id peer env (Reply.ok env.payload.body)
          → Earned now env r
      refused :
          (¬ Granted now (to_request local_id peer env))
          → r
            ≡ to_response local_id peer env
                (Reply.error ErrorCode.unauthorized "valid grant required")
          → Earned now env r

    -- The responses answer the requests one by one, each at its own time.
    abbrev pub Served : ℕ → List SignedEnvelope → List EnvelopePayload → Type 0
    Served n [] [] = Unit
    Served n (env ∷ envs) (r ∷ rs) = Earned (clock n) env r × Served (suc n) envs rs
    Served n _ _ = ⊥

    unfoldable pub gated : ℕ → Request → Reply × ℕ
    unfolding gated_handler
    gated n req = (gated_handler req (clock n), suc n)

    gated_handler-Earned :
        (now : ℕ) (env : SignedEnvelope)
        → Earned now env
            (to_response local_id peer env (gated_handler (to_request local_id peer env) now))
    unfolding gated_handler to_request
    gated_handler-Earned now env =
        let req = to_request local_id peer env in
        elim (Bool-cases (is_authorized req now)) [
          | inl allowed ↦
              rw (gated_handler, allowed) (granted (is_authorized_sound req now allowed) refl)
          | inr denied ↦
              rw (gated_handler, denied)
                (refused (λ g. let allowed = is_authorized_complete req now g in ground arith) refl)
        ]

    -- The capability is served only to callers with a grant for it, and to each of them: whatever
    -- arrives on a connection, the responses answer its requests in order, one each, and each is
    -- the body of its request where the request carries a grant that authorizes the key of the
    -- peer, as the handshake proved it, for the capability that it asks for, at the time of
    -- this request, and an error where it carries none.
    pub gated-Served :
        (n : ℕ) (inbound : List SignedEnvelope)
        → Served n
            (filter (λ env. is_request env.payload.typ) inbound)
            (serve_conn local_id peer gated n inbound).0
    unfolding serve_conn gated
    gated-Served n [] = tt
    gated-Served n (env ∷ inbound) = elim (Bool-cases (is_request env.payload.typ)) [
      | inl asks ↦
          rw (asks, serve_conn) (gated_handler-Earned (clock n) env, gated-Served (suc n) inbound)
      | inr other ↦ rw (other, serve_conn) (gated-Served n inbound)
    ]
