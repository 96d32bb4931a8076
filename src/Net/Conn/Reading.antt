-- ===== src/Net/Conn/Reading.antt =====
-- What the reader's task lets in, and that it ends.
use thicket_ai.Base.{
  ℕ, ◌+◌, ◌*◌, ◌≤◌, ◌<◌, ◌≡◌, ◌⊎◌, inl, inr, refl, true, none, some, List, [], ◌∷◌, ok, Bytes,
  length, drop, ◌==◌, Has, All, arith, Bool-cases, Option-cases, Result-cases, length-drop,
}
use thicket_ai.Core.{ResourceId, ResourceId_eq, id_eq_iff, KeyEndorsement, Kernel, Writer}
use thicket_ai.Core.Identity.{RevocationSet, no_revocations}
use thicket_ai.Core.Identity.Verify.{MaySign}
use thicket_ai.Interconnect.{Fabric}
use thicket_ai.Interconnect.Data.{SignedEnvelope}
use thicket_ai.Interconnect.Envelope.{verify_with_key, verify_envelope}
use thicket_ai.Interconnect.Envelope.Signing.{verify_with_key-verify_envelope}
use thicket_ai.Net.{VerifiedPeer}
use thicket_ai.Net.Secure.{IdentityProof, verify_identity, verify_identity_sound}
use thicket_ai.Net.Framing.{from_be_bytes, read_frame, read_body}
use thicket_ai.Net.Sealing.{Transport, decrypt_frame}
use thicket_ai.Net.Routing.{Channels, Tables, route}
use thicket_ai.Net.Routing.Delivery.{route_all}
use thicket_ai.Net.Conn.{Codec, peer_key_fresh, accept, read_one, reader}

MaySign-later :
    (k : Kernel) (root_pub : Bytes) (id : ResourceId) (es : List KeyEndorsement) (signer : Bytes)
    (early late : ℕ) (revs : RevocationSet) (may : MaySign k root_pub id es signer early revs)
    → early ≤ late
    → late ≤ may.endorsement.not_after
    → MaySign k root_pub id es signer late revs
MaySign-later k root_pub id es signer early late revs may a b = record {
  bound = may.bound;
  endorsement = may.endorsement;
  first = may.first;
  genuine = may.genuine;
  started = omega (arith, may.started, a);
  unexpired = b;
  trusted = may.trusted;
}

-- An envelope that the reader may let in at `now`.
pub record Trusted (f : Fabric) (peer : VerifiedPeer) (now : ℕ) (env : SignedEnvelope)
    : Type 0 where
  pub sender : env.payload.from ≡ peer.id
  pub signed : verify_with_key f env peer.working_pub ≡ ok tt
  pub fresh : now ≤ peer.key_not_after

module _ (f : Fabric) (t : Transport) (ch : Channels) (c : Codec) (peer : VerifiedPeer) where
  accept-Trusted :
      (now : ℕ) (plaintext : Bytes) (tables : Tables ch)
      → now ≤ peer.key_not_after
      → (accept f t ch c peer plaintext tables ≡ tables)
        ⊎ ((env : SignedEnvelope) × Trusted f peer now env
            × (accept f t ch c peer plaintext tables ≡ route ch env tables))
  unfolding accept
  accept-Trusted now plaintext tables h = elim (Result-cases (c.from_cbor plaintext)) [
    | inl (e, malformed) ↦ inl (rw (malformed, accept) refl)
    | inr (env, read) ↦ elim (Bool-cases (env.payload.from == peer.id)) [
      | inr other ↦ inl (rw (read, other, accept) refl)
      | inl own ↦ elim (Result-cases (verify_with_key f env peer.working_pub)) [
        | inl (e, forged) ↦ inl (rw (read, own, forged, accept) refl)
        | inr (u, signed) ↦ inr (
          env,
          record {
            sender = (id_eq_iff env.payload.from peer.id).0 own;
            signed = signed;
            fresh = h;
          },
          rw (read, own, signed, accept) refl,
        )
      ]
    ]
  ]

  read_one-Trusted :
      (now : ℕ) (blob : Bytes) (tables tables' : Tables ch) (s s' : t.State)
      → read_one f t ch c peer now blob tables s ≡ some (tables', s')
      → (tables' ≡ tables)
        ⊎ ((env : SignedEnvelope) × Trusted f peer now env × (tables' ≡ route ch env tables))
  unfolding read_one peer_key_fresh
  read_one-Trusted now blob tables tables' s s' h = elim (Result-cases (decrypt_frame t s blob)) [
    | inl (e, failed) ↦ absurd (ground arith)
    | inr ((plaintext, s1), opened) ↦
        let fresh : now ≤ peer.key_not_after = ground arith in
        let made : accept f t ch c peer plaintext tables ≡ tables' = ground arith in
        rw (← made) (accept-Trusted now plaintext tables fresh)
  ]

  -- The check of a message on its channel is enough: an envelope that the reader trusts after the
  -- peer has proved its identity is accepted by the full check of an envelope, against the proof's
  -- root key and endorsements, at the time it is read. The clock has not gone back.
  pub Trusted-verify_envelope :
      (write_bytes : Writer Bytes) (proof : IdentityProof) (static : Bytes) (before now : ℕ)
      (env : SignedEnvelope)
      → verify_identity f.kernel write_bytes proof static before ≡ ok peer
      → before ≤ now
      → Trusted f peer now env
      → verify_envelope f env proof.root_public_key proof.endorsements now no_revocations ≡ ok tt
  Trusted-verify_envelope write_bytes proof static before now env h later trusted =
      let known = (verify_identity_sound f.kernel write_bytes proof static before peer h).0 in
      verify_with_key-verify_envelope f env peer.working_pub proof.root_public_key
        proof.endorsements now no_revocations trusted.signed
        (rw (trusted.sender, known.same_id, known.same_key)
          (MaySign-later f.kernel proof.root_public_key proof.id proof.endorsements
            proof.working_pub before now no_revocations known.may later
            (rw (← known.expiry) trusted.fresh)))

  -- What the reader has done: routed envelopes, each trusted at some reading of the clock.
  pub record ReadBy (clock : List ℕ) (tables tables' : Tables ch) : Type 0 where
    pub envs : List SignedEnvelope
    pub routed : tables' ≡ route_all ch envs tables
    pub times : All (λ env. (now : ℕ) × Has now clock × Trusted f peer now env) envs

  nothing_read : (clock : List ℕ) (tables : Tables ch) → ReadBy clock tables tables
  nothing_read clock tables = record { envs = []; routed = refl; times = tt }

  later_times :
      (now : ℕ) (clock : List ℕ) (envs : List SignedEnvelope)
      → All (λ env. (at : ℕ) × Has at clock × Trusted f peer at env) envs
      → All (λ env. (at : ℕ) × Has at (now ∷ clock) × Trusted f peer at env) envs
  later_times now clock [] a = tt
  later_times now clock (env ∷ envs) ((at, m, trusted), a) =
      ((at, inr m, trusted), later_times now clock envs a)

  ReadBy-step :
      (now : ℕ) (clock : List ℕ) (tables tables1 tables2 : Tables ch)
      → (tables1 ≡ tables)
        ⊎ ((env : SignedEnvelope) × Trusted f peer now env × (tables1 ≡ route ch env tables))
      → ReadBy clock tables1 tables2
      → ReadBy (now ∷ clock) tables tables2
  ReadBy-step now clock tables tables1 tables2 (inl same) r = record {
    envs = r.envs;
    routed = rw (← same) r.routed;
    times = later_times now clock r.envs r.times;
  }
  ReadBy-step now clock tables tables1 tables2 (inr (env, trusted, made)) r = record {
    envs = env ∷ r.envs;
    routed = rw (← made) r.routed;
    times = ((now, inl refl, trusted), later_times now clock r.envs r.times);
  }

  -- A connection lets in only what its peer said: whatever bytes arrive, the tables become those
  -- after routing some envelopes, each of which names the peer as its sender, is signed by the key
  -- that the handshake proved, and was read before that key expired.
  pub reader-ReadBy :
      (clock : List ℕ) (stream : Bytes) (tables : Tables ch) (s : t.State)
      → ReadBy clock tables (reader f t ch c peer clock stream tables s).0
  unfolding reader
  reader-ReadBy [] stream tables s = nothing_read [] tables
  reader-ReadBy (now ∷ clock) stream tables s = elim (Result-cases (read_frame c.eof stream)) [
    | inl (e, failed) ↦ rw (failed, reader) (nothing_read (now ∷ clock) tables)
    | inr (none, end) ↦ rw (end, reader) (nothing_read (now ∷ clock) tables)
    | inr (some (blob, rest), got) ↦
        elim (Option-cases (read_one f t ch c peer now blob tables s)) [
          | inl stop ↦ rw (got, stop, reader) (nothing_read (now ∷ clock) tables)
          | inr ((tables1, s1), one) ↦
              rw (got, one, reader)
                (ReadBy-step now clock tables tables1 _
                  (read_one-Trusted now blob tables tables1 s s1 one)
                  (reader-ReadBy clock rest tables1 s1))
        ]
  ]

  read_body_shorter :
      (len : ℕ) (stream blob rest : Bytes)
      → read_body c.eof len stream ≡ ok (some (blob, rest))
      → length rest ≤ length stream
  unfolding read_body
  read_body_shorter len stream blob rest h =
      let e : rest ≡ drop len stream = ground arith in rw e (omega (arith, length-drop len stream))

  read_frame_shorter :
      (stream blob rest : Bytes)
      → read_frame c.eof stream ≡ ok (some (blob, rest))
      → length rest + 4 ≤ length stream
  unfolding read_frame
  read_frame_shorter [] blob rest h = absurd (ground arith)
  read_frame_shorter (x ∷ []) blob rest h = absurd (ground arith)
  read_frame_shorter (x ∷ y ∷ []) blob rest h = absurd (ground arith)
  read_frame_shorter (x ∷ y ∷ z ∷ []) blob rest h = absurd (ground arith)
  read_frame_shorter (x ∷ y ∷ z ∷ w ∷ stream) blob rest h =
      omega (arith, read_body_shorter (from_be_bytes x y z w) stream blob rest h)

  -- The reader's task ends on every stream that does: a round for every four bytes, and one more,
  -- are enough.
  pub reader_ends :
      (clock : List ℕ) (stream : Bytes) (tables : Tables ch) (s : t.State)
      → length stream < 4 * length clock
      → (reader f t ch c peer clock stream tables s).2 ≡ true
  unfolding reader
  reader_ends [] stream tables s h = absurd (omega arith)
  reader_ends (now ∷ clock) stream tables s h = elim (Result-cases (read_frame c.eof stream)) [
    | inl (e, failed) ↦ rw (failed, reader) refl
    | inr (none, end) ↦ rw (end, reader) refl
    | inr (some (blob, rest), got) ↦
        elim (Option-cases (read_one f t ch c peer now blob tables s)) [
          | inl stop ↦ rw (got, stop, reader) refl
          | inr ((tables1, s1), one) ↦
              rw (got, one, reader)
                (reader_ends clock rest tables1 s1
                  (omega (arith, read_frame_shorter stream blob rest got)))
        ]
  ]
