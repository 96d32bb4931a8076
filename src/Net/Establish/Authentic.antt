-- ===== src/Net/Establish/Authentic.antt =====
-- What an established connection knows of its peer, and what it lets in.
use thicket_ai.Base.{
  ℕ, ◌≡◌, ◌≤◌, ◌⊎◌, All-Has, refl, ap, ◌∙◌, ok_or, map_err, map_err-eq-ok, inl, inr, true, Bool,
  Option, none, some, List, [], ◌∷◌, Has, Result, ok, err, Bytes, if◌then◌else◌, All, arith,
  Result-cases, Option-cases, bind-eq-ok,
}
use thicket_ai.Core.{ResourceId, ResourceId_eq, id_eq_iff, Kernel, Writer}
use thicket_ai.Core.Crypto.{signing_bytes}
use thicket_ai.Core.Identity.{no_revocations}
use thicket_ai.Core.Identity.Verify.{MaySign}
use thicket_ai.Interconnect.{Fabric}
use thicket_ai.Interconnect.Data.{SignedEnvelope}
use thicket_ai.Interconnect.Envelope.{verify_envelope}
use thicket_ai.Net.{Error, crypto, handshake, LocalIdentity, VerifiedPeer}
use thicket_ai.Net.Sealing.{Transport}
use thicket_ai.Net.Secure.{
  static_binding_domain, IdentityProof, verify_identity, verify_identity_sound, Authenticated,
}
use thicket_ai.Net.Routing.{Channels, Tables}
use thicket_ai.Net.Routing.Delivery.{route_all}
use thicket_ai.Net.Conn
use thicket_ai.Net.Conn.{Codec, Conn, reader, expect_peer}
use thicket_ai.Net.Conn.Reading.{Trusted, reader-ReadBy, Trusted-verify_envelope}
use thicket_ai.Net.Establish.{
  Noise, ProofCodec, Exchanged, initiate, respond, conclude, prepare, handshake_over,
}

module _ (k : Kernel) (write_bytes : Writer Bytes) (t : Transport) (n : Noise t)
    (c : ProofCodec) where
  pub conclude_sound :
      (x : Exchanged k write_bytes t n c) (now : ℕ) (done : t.State × VerifiedPeer)
      → conclude k write_bytes t n c x now ≡ ok done
      → (static : Bytes) × (n.get_remote_static x.hs ≡ some static)
        × (verify_identity k write_bytes x.proof static now ≡ ok done.1)
  unfolding conclude
  conclude_sound x now done h = elim (Option-cases (n.get_remote_static x.hs)) [
    | inl missing ↦ absurd (ground arith)
    | inr (static, known) ↦ elim (Result-cases (verify_identity k write_bytes x.proof static now)) [
      | inl (e, failed) ↦ absurd (ground arith)
      | inr (peer, verified) ↦ (static, known, ground arith)
    ]
  ]

  pub conclude_transport :
      (x : Exchanged k write_bytes t n c) (now : ℕ) (done : t.State × VerifiedPeer)
      → conclude k write_bytes t n c x now ≡ ok done
      → n.into_transport_mode x.hs ≡ ok done.0
  unfolding conclude
  conclude_transport x now done h =
      let a = bind-eq-ok (ok_or (n.get_remote_static x.hs) handshake) _ h in
      let b = bind-eq-ok (verify_identity k write_bytes x.proof a.0 now) _ a.2 in
      let d = bind-eq-ok (map_err crypto (n.into_transport_mode x.hs)) _ b.2 in
      let last = d.2 in
      let same : d.0 ≡ done.0 = ground arith in map_err-eq-ok crypto _ d.1 ∙ ap ok same

  -- The messages of a handshake: what was prepared, and what the exchange over the stream gave.
  pub record Handshake (entropy : Bytes) (local : LocalIdentity) (initiator : Bool)
      (stream rest written : Bytes) : Type 0 where
    pub prepared : Bytes × n.State
    pub made : prepare k write_bytes t n c entropy local initiator ≡ ok prepared
    pub exchanged : Exchanged k write_bytes t n c
    pub ran :
        (if initiator
          then initiate k write_bytes t n c prepared.1 prepared.0 stream
          else respond k write_bytes t n c prepared.1 prepared.0 stream)
        ≡ ok exchanged
    pub left : exchanged.rest ≡ rest
    pub sent : exchanged.written ≡ written

  handshake_over_sound :
      (entropy : Bytes) (local : LocalIdentity) (initiator : Bool) (now : ℕ)
      (stream rest written : Bytes) (done : t.State × VerifiedPeer)
      → handshake_over k write_bytes t n c entropy local initiator now stream
        ≡ ok (done, rest, written)
      → (run : Handshake entropy local initiator stream rest written) × (conclude k write_bytes t n
            c run.exchanged now
          ≡ ok done)
  unfolding handshake_over
  handshake_over_sound entropy local initiator now stream rest written done h =
      let a = bind-eq-ok (prepare k write_bytes t n c entropy local initiator) _ h in
      let b =
        bind-eq-ok
          (if initiator
            then initiate k write_bytes t n c a.0.1 a.0.0 stream
            else respond k write_bytes t n c a.0.1 a.0.0 stream)
          _ a.2 in
      let d = bind-eq-ok (conclude k write_bytes t n c b.0 now) _ b.2 in
      let last = d.2 in
      let same : d.0 ≡ done = ground arith in
      (
        record {
          prepared = a.0;
          made = a.1;
          exchanged = b.0;
          ran = b.1;
          left = ground arith;
          sent = ground arith;
        },
        rw (← same) d.1,
      )

  -- A handshake over any stream gives a peer only where a proof of identity that came over it is
  -- good: its working key may sign for its id, has signed the static key that the handshake
  -- negotiated, and is not past the expiry that is kept for the peer.
  pub handshake_over_authenticates :
      (entropy : Bytes) (local : LocalIdentity) (initiator : Bool) (now : ℕ)
      (stream rest written : Bytes) (done : t.State × VerifiedPeer)
      → handshake_over k write_bytes t n c entropy local initiator now stream
        ≡ ok (done, rest, written)
      → (run : Handshake entropy local initiator stream rest written) × (static : Bytes)
        × (n.get_remote_static run.exchanged.hs ≡ some static)
        × (verify_identity k write_bytes run.exchanged.proof static now ≡ ok done.1)
        × Authenticated k write_bytes run.exchanged.proof static now done.1
        × (now ≤ done.1.key_not_after)
  handshake_over_authenticates entropy local initiator now stream rest written done h =
      let a = handshake_over_sound entropy local initiator now stream rest written done h in
      let b = conclude_sound a.0.exchanged now done a.1 in
      let d = verify_identity_sound k write_bytes a.0.exchanged.proof b.0 now done.1 b.2 in
      (a.0, b.0, b.1, b.2, d.0, d.1)

module _ (f : Fabric) (t : Transport) (ch : Channels) (c : Codec) where
  expect_peer_sound :
      (expected : Option ResourceId) (peer : VerifiedPeer)
      → expect_peer f t ch c expected peer ≡ ok tt
      → (expected ≡ none) ⊎ (expected ≡ some peer.id)
  unfolding expect_peer
  expect_peer_sound none peer h = inl refl
  expect_peer_sound (some expected) peer h =
      inr (ap some (ground (arith, id_eq_iff expected peer.id)))

  -- A connection is made only from a handshake that succeeded in time, with its transport and its
  -- peer, who is the one that was expected where one was; it starts with no call and no stream.
  pub establish_sound :
      (local : LocalIdentity) (expected : Option ResourceId) (world : ch.World)
      (shaken : Option (Result Error (t.State × VerifiedPeer))) (conn : Conn f t ch c)
      (tables : Tables ch) (s : t.State) (out_rx : ch.OutRx)
      → Conn.establish f t ch c local expected world shaken ≡ ok (conn, tables, s, out_rx)
      → (shaken ≡ some (ok (s, conn.peer)))
        × ((expected ≡ none) ⊎ (expected ≡ some conn.peer.id))
        × (tables.pending ≡ [])
        × (tables.streams ≡ [])
  unfolding Conn.establish
  establish_sound local expected world none conn tables s out_rx h = absurd (ground arith)
  establish_sound local expected world (some (err e)) conn tables s out_rx h = absurd (ground arith)
  establish_sound local expected world (some (ok made)) conn tables s out_rx h =
      elim (Result-cases (expect_peer f t ch c expected made.1)) [
        | inl (e, failed) ↦ absurd (ground arith)
        | inr (u, met) ↦
            let peer : made.1 ≡ conn.peer = ground arith in
            let state : made.0 ≡ s = ground arith in
            (
              rw (← peer, ← state) refl,
              rw (← peer) (expect_peer_sound expected made.1 met),
              ground arith,
              ground arith,
            )
      ]

  All-verify_envelope :
      (write_bytes : Writer Bytes) (proof : IdentityProof) (static : Bytes) (start : ℕ)
      (peer : VerifiedPeer) (clock : List ℕ) (envs : List SignedEnvelope)
      → verify_identity f.kernel write_bytes proof static start ≡ ok peer
      → All (λ now. start ≤ now) clock
      → All (λ env. (now : ℕ) × Has now clock × Trusted f peer now env) envs
      → All
          (λ env.
            (now : ℕ) × Has now clock
            × (verify_envelope f env proof.root_public_key proof.endorsements now no_revocations
                ≡ ok tt))
          envs
  All-verify_envelope write_bytes proof static start peer clock [] h late a = tt
  All-verify_envelope write_bytes proof static start peer clock (env ∷ envs) h late
        ((now, m, trusted), a) =
      (
        (
          now,
          m,
          Trusted-verify_envelope f t ch c peer write_bytes proof static start now env h
              (All-Has (λ x. start ≤ x) clock now late m) trusted,
        ),
        All-verify_envelope write_bytes proof static start peer clock envs h late a,
      )

  -- From the handshake to the tables: a connection that was established has the id and the working
  -- key of the proof of identity that came over the handshake's messages. That key may sign for that
  -- id at the time of the handshake, and Ed25519 accepts its signature for the static key that the
  -- handshake negotiated. Whatever arrives then, the tables become those after routing some
  -- envelopes, each of which the full check of an envelope accepts at the time it was read, against
  -- the root key and the endorsements of this proof. The clock does not go back behind the handshake.
  pub established-reader :
      (write_bytes : Writer Bytes) (n : Noise t) (pc : ProofCodec) (entropy : Bytes)
      (local : LocalIdentity) (initiator : Bool) (start : ℕ) (stream rest written : Bytes)
      (done : t.State × VerifiedPeer) (expected : Option ResourceId) (world : ch.World)
      (conn : Conn f t ch c) (tables : Tables ch) (s : t.State) (out_rx : ch.OutRx) (clock : List ℕ)
      → handshake_over f.kernel write_bytes t n pc entropy local initiator start stream
        ≡ ok (done, rest, written)
      → Conn.establish f t ch c local expected world (some (ok done)) ≡ ok (conn, tables, s, out_rx)
      → All (λ now. start ≤ now) clock
      → (run : Handshake f.kernel write_bytes t n pc entropy local initiator stream rest written)
        × (static : Bytes) × (message : Bytes) × (envs : List SignedEnvelope) × (n.get_remote_static
              run.exchanged.hs
            ≡ some static)
        × MaySign f.kernel run.exchanged.proof.root_public_key run.exchanged.proof.id
            run.exchanged.proof.endorsements run.exchanged.proof.working_pub start no_revocations
        × (signing_bytes write_bytes static_binding_domain static ≡ ok message)
        × (f.kernel.vk_verify run.exchanged.proof.working_pub message run.exchanged.proof.static_sig
            ≡ true)
        × (conn.peer.id ≡ run.exchanged.proof.id)
        × (conn.peer.working_pub ≡ run.exchanged.proof.working_pub)
        × ((reader f t ch c conn.peer clock rest tables s).0 ≡ route_all ch envs tables)
        × All
            (λ env.
              (now : ℕ) × Has now clock
              × (verify_envelope f env run.exchanged.proof.root_public_key
                    run.exchanged.proof.endorsements now no_revocations
                  ≡ ok tt))
            envs
  established-reader write_bytes n pc entropy local initiator start stream rest written done
        expected world conn tables s out_rx clock h e late =
      let a =
        handshake_over_authenticates f.kernel write_bytes t n pc entropy local initiator start
          stream rest written done h in
      let b = establish_sound local expected world (some (ok done)) conn tables s out_rx e in
      let peer : done.1 ≡ conn.peer = ground (arith, b.0) in
      let read = reader-ReadBy f t ch c conn.peer clock rest tables s in
      (
        a.0,
        a.1,
        a.4.message,
        read.envs,
        a.2,
        a.4.may,
        a.4.written,
        a.4.bound,
        rw (← peer) a.4.same_id,
        rw (← peer) a.4.same_key,
        read.routed,
        All-verify_envelope write_bytes a.0.exchanged.proof a.1 start conn.peer clock read.envs
            (rw (← peer) a.3) late read.times,
      )
