-- ===== src/Net/Establish/Mutual.antt =====
-- Two ends whose handshakes run over each other's bytes.
use thicket_ai.Base.{
  ℕ, ◌≡◌, ap, sym, ◌∙◌, Bool, true, false, [], ◌++◌, ok, Bytes, arith, bind-eq-ok,
}
use mathlib.Core.List.{append_assoc}
use thicket_ai.Core.{Kernel, Writer}
use thicket_ai.Core.Identity.{working_public}
use thicket_ai.Net.{LocalIdentity, VerifiedPeer}
use thicket_ai.Net.Sealing.{Transport}
use thicket_ai.Net.Sealing.Opening.{TransportLaws}
use thicket_ai.Net.Secure.{IdentityProof, binding_message, make_proof, verify_identity_sound}
use thicket_ai.Net.Establish.Authentic.{conclude_sound, conclude_transport}
use thicket_ai.Net.Establish.Messages.{
  Prepared, prepare-Prepared, Initiated, initiate-Initiated, Responded, respond-Responded,
  read_framed, over_steps,
}
use thicket_ai.Net.Establish.{
  Noise, ProofCodec, noise_params, Exchanged, read_message_frame, conclude, handshake_over,
}

-- What the code relies on of Noise XX: where an initiator and a responder are built for it and each
-- reads what the other wrote, the payloads arrive.
pub record NoiseLaws {t : Transport} (n : Noise t) : Type 1 where
  pub Paired : n.State → n.State → Type 0
  -- the two ends of a handshake that is over
  pub Over : n.State → n.State → Type 0
  pub built :
      (ci cr : n.Builder) (i r : n.State)
      → n.build_initiator ci ≡ ok i
      → n.build_responder cr ≡ ok r
      → Paired i r
  pub exchange :
      (i i1 i2 i3 r r1 r2 r3 : n.State) (payload_i payload_r m1 m2 m3 x y z : Bytes)
      → Paired i r
      → n.write_message i [] ≡ ok (m1, i1)
      → n.read_message r m1 ≡ ok (x, r1)
      → n.write_message r1 payload_r ≡ ok (m2, r2)
      → n.read_message i1 m2 ≡ ok (y, i2)
      → n.write_message i2 payload_i ≡ ok (m3, i3)
      → n.read_message r2 m3 ≡ ok (z, r3)
      → (y ≡ payload_r) × (z ≡ payload_i) × Over i3 r3

-- The two ends of a handshake that is over turn into transports that agree.
pub record SplitLaws {t : Transport} {n : Noise t} (laws : NoiseLaws n) (tl : TransportLaws t)
    : Type 1 where
  pub split :
      (i r : n.State) (ti tr : t.State)
      → laws.Over i r
      → n.into_transport_mode i ≡ ok ti
      → n.into_transport_mode r ≡ ok tr
      → tl.Synced ti tr

module _ (k : Kernel) (write_bytes : Writer Bytes) (t : Transport) (n : Noise t)
    (c : ProofCodec) where
  -- The codec reads back the proof that an end makes for its own key.
  abbrev pub ProofReadsBack : Bytes → LocalIdentity → Type 0
  ProofReadsBack entropy local =
      (b : n.Builder) (keys : Bytes × Bytes) (p : IdentityProof) (bytes : Bytes)
      → n.builder noise_params entropy ≡ ok b
      → n.generate_keypair b ≡ ok keys
      → make_proof k write_bytes local keys.0 ≡ ok p
      → c.to_cbor p ≡ ok bytes
      → c.from_cbor bytes ≡ ok p

  make_proof_fields :
      (local : LocalIdentity) (static : Bytes) (p : IdentityProof)
      → make_proof k write_bytes local static ≡ ok p
      → (p.id ≡ local.id) × (p.working_pub ≡ working_public k local.working)
  unfolding make_proof
  make_proof_fields local static p h =
      let m = bind-eq-ok (binding_message k write_bytes static) _ h in
      let last = m.2 in (ground arith, ground arith)

  -- an end that was given the other's proof has the other as its peer
  peer_known :
      (entropy : Bytes) (local : LocalIdentity) (initiator : Bool) (bytes : Bytes) (hs : n.State)
      (x : Exchanged k write_bytes t n c) (now : ℕ) (done : t.State × VerifiedPeer)
      → Prepared k write_bytes t n c entropy local initiator bytes hs
      → ProofReadsBack entropy local
      → c.from_cbor bytes ≡ ok x.proof
      → conclude k write_bytes t n c x now ≡ ok done
      → (done.1.id ≡ local.id) × (done.1.working_pub ≡ working_public k local.working)
  peer_known entropy local initiator bytes hs x now done p back read concluded =
      let own =
        back p.builder p.keys p.proof bytes p.made_builder p.made_keys p.made_proof p.made_bytes in
      let same : x.proof ≡ p.proof = ground arith in
      let v = conclude_sound k write_bytes t n c x now done concluded in
      let known = (verify_identity_sound k write_bytes x.proof v.0 now done.1 v.2).0 in
      let made = make_proof_fields local p.keys.0 p.proof p.made_proof in
      (
        known.same_id ∙ ap (λ (q : IdentityProof). q.id) same ∙ made.0,
        known.same_key ∙ ap (λ (q : IdentityProof). q.working_pub) same ∙ made.1,
      )

  -- what the two ends have after messages that went from each to the other
  payloads_arrive :
      (laws : NoiseLaws n) (hs_i hs_r : n.State) (bytes_i bytes_r : Bytes)
      (x_i x_r : Exchanged k write_bytes t n c) (written_i written_r tail_i tail_r : Bytes)
      → laws.Paired hs_i hs_r
      → x_i.written ≡ written_i
      → x_r.written ≡ written_r
      → Initiated k write_bytes t n c hs_i bytes_i (written_r ++ tail_r) x_i
      → Responded k write_bytes t n c hs_r bytes_r (written_i ++ tail_i) x_r
      → (c.from_cbor bytes_r ≡ ok x_i.proof)
        × (c.from_cbor bytes_i ≡ ok x_r.proof)
        × (x_i.rest ≡ tail_r)
        × (x_r.rest ≡ tail_i)
        × laws.Over x_i.hs x_r.hs
  payloads_arrive laws hs_i hs_r bytes_i bytes_r x_i x_r written_i written_r tail_i tail_r pair wi
        wr mi mr =
      let m2 =
        read_framed k write_bytes t n c mr.reply.0 written_r tail_r mi.ct (mr.framed ∙ ap ok wr)
          mi.got in
      let sent : written_i ++ tail_i ≡ mi.sent ++ (mi.sent_last ++ tail_i) =
        ap (λ b. b ++ tail_i) (sym wi ∙ mi.written) ∙ append_assoc mi.sent mi.sent_last tail_i in
      let m1 =
        read_framed k write_bytes t n c mi.first.0 mi.sent (mi.sent_last ++ tail_i) mr.ct
          mi.framed_first (ap (read_message_frame k write_bytes t n c) (sym sent) ∙ mr.got_first) in
      let m3 =
        read_framed k write_bytes t n c mi.last.0 mi.sent_last tail_i mr.ct_last mi.framed_last
          (ap (read_message_frame k write_bytes t n c) m1.1 ∙ mr.got_last) in
      let x =
        laws.exchange hs_i mi.first.1 mi.payload.1 mi.last.1 hs_r mr.first.1 mr.reply.1 mr.payload.1
          bytes_i bytes_r mi.first.0 mr.reply.0 mi.last.0 mr.first.0 mi.payload.0 mr.payload.0 pair
          mi.wrote_first (ap (n.read_message hs_r) m1.0 ∙ mr.read_first) mr.wrote
          (ap (n.read_message mi.first.1) m2.0 ∙ mi.read) mi.wrote_last
          (ap (n.read_message mr.reply.1) m3.0 ∙ mr.read_last) in
      (
        ap c.from_cbor (sym x.0) ∙ mi.proof_read,
        ap c.from_cbor (sym x.1) ∙ mr.proof_read,
        mi.rest ∙ sym m2.1,
        mr.rest ∙ sym m3.1,
        rw (mi.state, mr.state) x.2,
      )

  -- two handshakes that completed over each other's bytes
  record Met (laws : NoiseLaws n) (entropy_i entropy_r : Bytes) (local_i local_r : LocalIdentity)
      (now_i now_r : ℕ) (rest_i rest_r tail_i tail_r : Bytes)
      (done_i done_r : t.State × VerifiedPeer) : Type 0 where
    pub bytes_i : Bytes
    pub bytes_r : Bytes
    pub hs_i : n.State
    pub hs_r : n.State
    pub x_i : Exchanged k write_bytes t n c
    pub x_r : Exchanged k write_bytes t n c
    pub prepared_i : Prepared k write_bytes t n c entropy_i local_i true bytes_i hs_i
    pub prepared_r : Prepared k write_bytes t n c entropy_r local_r false bytes_r hs_r
    pub concluded_i : conclude k write_bytes t n c x_i now_i ≡ ok done_i
    pub concluded_r : conclude k write_bytes t n c x_r now_r ≡ ok done_r
    pub arrived_i : c.from_cbor bytes_r ≡ ok x_i.proof
    pub arrived_r : c.from_cbor bytes_i ≡ ok x_r.proof
    pub follows_i : rest_i ≡ tail_r
    pub follows_r : rest_r ≡ tail_i
    pub over : laws.Over x_i.hs x_r.hs

  meet :
      (laws : NoiseLaws n) (entropy_i entropy_r : Bytes) (local_i local_r : LocalIdentity)
      (now_i now_r : ℕ) (rest_i rest_r written_i written_r tail_i tail_r : Bytes)
      (done_i done_r : t.State × VerifiedPeer)
      → handshake_over k write_bytes t n c entropy_i local_i true now_i (written_r ++ tail_r)
        ≡ ok (done_i, rest_i, written_i)
      → handshake_over k write_bytes t n c entropy_r local_r false now_r (written_i ++ tail_i)
        ≡ ok (done_r, rest_r, written_r)
      → Met laws entropy_i entropy_r local_i local_r now_i now_r rest_i rest_r tail_i tail_r done_i
          done_r
  meet laws entropy_i entropy_r local_i local_r now_i now_r rest_i rest_r written_i written_r tail_i
        tail_r done_i done_r hi hr =
      let oi =
        over_steps k write_bytes t n c entropy_i local_i true now_i _ rest_i written_i done_i hi in
      let or =
        over_steps k write_bytes t n c entropy_r local_r false now_r _ rest_r written_r done_r hr in
      let pi = prepare-Prepared k write_bytes t n c entropy_i local_i true oi.0 oi.1 in
      let pr = prepare-Prepared k write_bytes t n c entropy_r local_r false or.0 or.1 in
      let a =
        payloads_arrive laws oi.0.1 or.0.1 oi.0.0 or.0.0 oi.2 or.2 written_i written_r tail_i tail_r
          (laws.built pi.keyed pr.keyed oi.0.1 or.0.1 pi.made_state pr.made_state) oi.6 or.6
          (initiate-Initiated k write_bytes t n c oi.0.1 oi.0.0 _ oi.2 oi.3)
          (respond-Responded k write_bytes t n c or.0.1 or.0.0 _ or.2 or.3) in
      record {
        bytes_i = oi.0.0;
        bytes_r = or.0.0;
        hs_i = oi.0.1;
        hs_r = or.0.1;
        x_i = oi.2;
        x_r = or.2;
        prepared_i = pi;
        prepared_r = pr;
        concluded_i = oi.4;
        concluded_r = or.4;
        arrived_i = a.0;
        arrived_r = a.1;
        follows_i = sym oi.5 ∙ a.2;
        follows_r = sym or.5 ∙ a.3;
        over = a.4;
      }

  -- Two ends whose handshakes complete over each other's bytes have each other as their peer: the
  -- initiator has the id and the working key of the responder, and the responder those of the
  -- initiator; what follows the messages stays in the streams. The codec reads back both proofs.
  pub handshake_over_mutual :
      (laws : NoiseLaws n) (entropy_i entropy_r : Bytes) (local_i local_r : LocalIdentity)
      (now_i now_r : ℕ) (rest_i rest_r written_i written_r tail_i tail_r : Bytes)
      (done_i done_r : t.State × VerifiedPeer)
      → ProofReadsBack entropy_i local_i
      → ProofReadsBack entropy_r local_r
      → handshake_over k write_bytes t n c entropy_i local_i true now_i (written_r ++ tail_r)
        ≡ ok (done_i, rest_i, written_i)
      → handshake_over k write_bytes t n c entropy_r local_r false now_r (written_i ++ tail_i)
        ≡ ok (done_r, rest_r, written_r)
      → (done_i.1.id ≡ local_r.id)
        × (done_i.1.working_pub ≡ working_public k local_r.working)
        × (done_r.1.id ≡ local_i.id)
        × (done_r.1.working_pub ≡ working_public k local_i.working)
        × (rest_i ≡ tail_r)
        × (rest_r ≡ tail_i)
  handshake_over_mutual laws entropy_i entropy_r local_i local_r now_i now_r rest_i rest_r written_i
        written_r tail_i tail_r done_i done_r back_i back_r hi hr =
      let m =
        meet laws entropy_i entropy_r local_i local_r now_i now_r rest_i rest_r written_i written_r
          tail_i tail_r done_i done_r hi hr in
      let known_r =
        peer_known entropy_r local_r false m.bytes_r m.hs_r m.x_i now_i done_i m.prepared_r back_r
          m.arrived_i m.concluded_i in
      let known_i =
        peer_known entropy_i local_i true m.bytes_i m.hs_i m.x_r now_r done_r m.prepared_i back_i
          m.arrived_r m.concluded_r in
      (known_r.0, known_r.1, known_i.0, known_i.1, m.follows_i, m.follows_r)

  -- Their transports agree.
  pub handshake_over-Synced :
      (laws : NoiseLaws n) (tl : TransportLaws t) (splits : SplitLaws laws tl)
      (entropy_i entropy_r : Bytes) (local_i local_r : LocalIdentity) (now_i now_r : ℕ)
      (rest_i rest_r written_i written_r tail_i tail_r : Bytes)
      (done_i done_r : t.State × VerifiedPeer)
      → handshake_over k write_bytes t n c entropy_i local_i true now_i (written_r ++ tail_r)
        ≡ ok (done_i, rest_i, written_i)
      → handshake_over k write_bytes t n c entropy_r local_r false now_r (written_i ++ tail_i)
        ≡ ok (done_r, rest_r, written_r)
      → tl.Synced done_i.0 done_r.0
  handshake_over-Synced laws tl splits entropy_i entropy_r local_i local_r now_i now_r rest_i rest_r
        written_i written_r tail_i tail_r done_i done_r hi hr =
      let m =
        meet laws entropy_i entropy_r local_i local_r now_i now_r rest_i rest_r written_i written_r
          tail_i tail_r done_i done_r hi hr in
      splits.split m.x_i.hs m.x_r.hs done_i.0 done_r.0 m.over
        (conclude_transport k write_bytes t n c m.x_i now_i done_i m.concluded_i)
        (conclude_transport k write_bytes t n c m.x_r now_r done_r m.concluded_r)
