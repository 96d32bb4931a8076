-- ===== src/Net/Establish/Messages.antt =====
-- The steps of a handshake that succeeded, at either end.
use thicket_ai.Base.{
  ℕ, ◌≡◌, ap, ◌∙◌, Bool, [], ◌++◌, ok, Bytes, arith, map_err, bind-eq-ok, map_err-eq-ok,
  if◌then◌else◌,
}
use thicket_ai.Core.{Kernel, Writer}
use thicket_ai.Net.{codec, crypto, LocalIdentity, VerifiedPeer}
use thicket_ai.Net.Framing.{write_frame, read_frame-write_frame}
use thicket_ai.Net.Sealing.{Transport}
use thicket_ai.Net.Secure.{IdentityProof, make_proof}
use thicket_ai.Net.Establish.{
  Noise, ProofCodec, noise_params, Exchanged, read_message_frame, initiate, respond, conclude,
  prepare, handshake_over,
}

module _ (k : Kernel) (write_bytes : Writer Bytes) (t : Transport) (n : Noise t)
    (c : ProofCodec) where
  -- the steps of a preparation that succeeded
  pub record Prepared (entropy : Bytes) (local : LocalIdentity) (initiator : Bool) (bytes : Bytes)
      (hs : n.State) : Type 0 where
    pub builder : n.Builder
    pub keys : Bytes × Bytes
    pub keyed : n.Builder
    pub proof : IdentityProof
    pub made_builder : n.builder noise_params entropy ≡ ok builder
    pub made_keys : n.generate_keypair builder ≡ ok keys
    pub made_proof : make_proof k write_bytes local keys.0 ≡ ok proof
    pub made_bytes : c.to_cbor proof ≡ ok bytes
    pub made_keyed : n.local_private_key builder keys.1 ≡ ok keyed
    pub made_state :
        (if initiator then n.build_initiator keyed else n.build_responder keyed) ≡ ok hs

  pub prepare-Prepared :
      (entropy : Bytes) (local : LocalIdentity) (initiator : Bool) (x : Bytes × n.State)
      → prepare k write_bytes t n c entropy local initiator ≡ ok x
      → Prepared entropy local initiator x.0 x.1
  unfolding prepare
  prepare-Prepared entropy local initiator x h =
      let b = bind-eq-ok (map_err crypto (n.builder noise_params entropy)) _ h in
      let ks = bind-eq-ok (map_err crypto (n.generate_keypair b.0)) _ b.2 in
      let p = bind-eq-ok (make_proof k write_bytes local ks.0.0) _ ks.2 in
      let bs = bind-eq-ok (map_err codec (c.to_cbor p.0)) _ p.2 in
      let kd = bind-eq-ok (map_err crypto (n.local_private_key b.0 ks.0.1)) _ bs.2 in
      let hs =
        bind-eq-ok
          (map_err crypto (if initiator then n.build_initiator kd.0 else n.build_responder kd.0)) _
          kd.2 in
      let last = hs.2 in
      let same_bytes : bs.0 ≡ x.0 = ground arith in
      let same_state : hs.0 ≡ x.1 = ground arith in
      record {
        builder = b.0;
        keys = ks.0;
        keyed = kd.0;
        proof = p.0;
        made_builder = map_err-eq-ok crypto _ b.1;
        made_keys = map_err-eq-ok crypto _ ks.1;
        made_proof = p.1;
        made_bytes = map_err-eq-ok codec _ bs.1 ∙ ap ok same_bytes;
        made_keyed = map_err-eq-ok crypto _ kd.1;
        made_state = map_err-eq-ok crypto _ hs.1 ∙ ap ok same_state;
      }

  -- the messages of an initiator that succeeded
  pub record Initiated (hs : n.State) (bytes stream : Bytes) (x : Exchanged k write_bytes t n c)
      : Type 0 where
    pub first : Bytes × n.State
    pub sent : Bytes
    pub ct : Bytes × Bytes
    pub payload : Bytes × n.State
    pub last : Bytes × n.State
    pub sent_last : Bytes
    pub wrote_first : n.write_message hs [] ≡ ok first
    pub framed_first : write_frame first.0 ≡ ok sent
    pub got : read_message_frame k write_bytes t n c stream ≡ ok ct
    pub read : n.read_message first.1 ct.0 ≡ ok payload
    pub proof_read : c.from_cbor payload.0 ≡ ok x.proof
    pub wrote_last : n.write_message payload.1 bytes ≡ ok last
    pub framed_last : write_frame last.0 ≡ ok sent_last
    pub state : x.hs ≡ last.1
    pub rest : x.rest ≡ ct.1
    pub written : x.written ≡ sent ++ sent_last

  pub initiate-Initiated :
      (hs : n.State) (bytes stream : Bytes) (x : Exchanged k write_bytes t n c)
      → initiate k write_bytes t n c hs bytes stream ≡ ok x
      → Initiated hs bytes stream x
  unfolding initiate
  initiate-Initiated hs bytes stream x h =
      let a = bind-eq-ok (map_err crypto (n.write_message hs [])) _ h in
      let b = bind-eq-ok (write_frame a.0.0) _ a.2 in
      let d = bind-eq-ok (read_message_frame k write_bytes t n c stream) _ b.2 in
      let e = bind-eq-ok (map_err crypto (n.read_message a.0.1 d.0.0)) _ d.2 in
      let p = bind-eq-ok (map_err codec (c.from_cbor e.0.0)) _ e.2 in
      let l = bind-eq-ok (map_err crypto (n.write_message e.0.1 bytes)) _ p.2 in
      let s = bind-eq-ok (write_frame l.0.0) _ l.2 in
      let end = s.2 in
      let same : p.0 ≡ x.proof = ground arith in
      record {
        first = a.0;
        sent = b.0;
        ct = d.0;
        payload = e.0;
        last = l.0;
        sent_last = s.0;
        wrote_first = map_err-eq-ok crypto _ a.1;
        framed_first = b.1;
        got = d.1;
        read = map_err-eq-ok crypto _ e.1;
        proof_read = map_err-eq-ok codec _ p.1 ∙ ap ok same;
        wrote_last = map_err-eq-ok crypto _ l.1;
        framed_last = s.1;
        state = ground arith;
        rest = ground arith;
        written = ground arith;
      }

  -- the messages of a responder that succeeded
  pub record Responded (hs : n.State) (bytes stream : Bytes) (x : Exchanged k write_bytes t n c)
      : Type 0 where
    pub ct : Bytes × Bytes
    pub first : Bytes × n.State
    pub reply : Bytes × n.State
    pub ct_last : Bytes × Bytes
    pub payload : Bytes × n.State
    pub got_first : read_message_frame k write_bytes t n c stream ≡ ok ct
    pub read_first : n.read_message hs ct.0 ≡ ok first
    pub wrote : n.write_message first.1 bytes ≡ ok reply
    pub framed : write_frame reply.0 ≡ ok x.written
    pub got_last : read_message_frame k write_bytes t n c ct.1 ≡ ok ct_last
    pub read_last : n.read_message reply.1 ct_last.0 ≡ ok payload
    pub proof_read : c.from_cbor payload.0 ≡ ok x.proof
    pub state : x.hs ≡ payload.1
    pub rest : x.rest ≡ ct_last.1

  pub respond-Responded :
      (hs : n.State) (bytes stream : Bytes) (x : Exchanged k write_bytes t n c)
      → respond k write_bytes t n c hs bytes stream ≡ ok x
      → Responded hs bytes stream x
  unfolding respond
  respond-Responded hs bytes stream x h =
      let a = bind-eq-ok (read_message_frame k write_bytes t n c stream) _ h in
      let b = bind-eq-ok (map_err crypto (n.read_message hs a.0.0)) _ a.2 in
      let d = bind-eq-ok (map_err crypto (n.write_message b.0.1 bytes)) _ b.2 in
      let s = bind-eq-ok (write_frame d.0.0) _ d.2 in
      let e = bind-eq-ok (read_message_frame k write_bytes t n c a.0.1) _ s.2 in
      let l = bind-eq-ok (map_err crypto (n.read_message d.0.1 e.0.0)) _ e.2 in
      let p = bind-eq-ok (map_err codec (c.from_cbor l.0.0)) _ l.2 in
      let end = p.2 in
      let same : p.0 ≡ x.proof = ground arith in
      let same_written : s.0 ≡ x.written = ground arith in
      record {
        ct = a.0;
        first = b.0;
        reply = d.0;
        ct_last = e.0;
        payload = l.0;
        got_first = a.1;
        read_first = map_err-eq-ok crypto _ b.1;
        wrote = map_err-eq-ok crypto _ d.1;
        framed = s.1 ∙ ap ok same_written;
        got_last = e.1;
        read_last = map_err-eq-ok crypto _ l.1;
        proof_read = map_err-eq-ok codec _ p.1 ∙ ap ok same;
        state = ground arith;
        rest = ground arith;
      }

  -- a message that was framed is the message that is read
  pub read_framed :
      (message frame tail : Bytes) (got : Bytes × Bytes)
      → write_frame message ≡ ok frame
      → read_message_frame k write_bytes t n c (frame ++ tail) ≡ ok got
      → (message ≡ got.0) × (tail ≡ got.1)
  unfolding read_message_frame
  read_framed message frame tail got framed h =
      let r = (read_frame-write_frame c.eof message tail frame framed).1 in
      (ground arith, ground arith)

  -- the steps of a handshake that succeeded
  pub over_steps :
      (entropy : Bytes) (local : LocalIdentity) (initiator : Bool) (now : ℕ)
      (stream rest written : Bytes) (done : t.State × VerifiedPeer)
      → handshake_over k write_bytes t n c entropy local initiator now stream
        ≡ ok (done, rest, written)
      → (p : Bytes × n.State) × (prepare k write_bytes t n c entropy local initiator ≡ ok p)
        × (x : Exchanged k write_bytes t n c) × ((if initiator
              then initiate k write_bytes t n c p.1 p.0 stream
              else respond k write_bytes t n c p.1 p.0 stream)
            ≡ ok x)
        × (conclude k write_bytes t n c x now ≡ ok done)
        × (x.rest ≡ rest)
        × (x.written ≡ written)
  unfolding handshake_over
  over_steps entropy local initiator now stream rest written done h =
      let a = bind-eq-ok (prepare k write_bytes t n c entropy local initiator) _ h in
      let b =
        bind-eq-ok
          (if initiator
            then initiate k write_bytes t n c a.0.1 a.0.0 stream
            else respond k write_bytes t n c a.0.1 a.0.0 stream)
          _ a.2 in
      let d = bind-eq-ok (conclude k write_bytes t n c b.0 now) _ b.2 in
      let last = d.2 in
      let same : d.0 ≡ done = ground arith in
      (a.0, a.1, b.0, b.1, d.1 ∙ ap ok same, ground arith, ground arith)
