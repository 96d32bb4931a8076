-- ===== src/Net/Establish.antt =====
-- `establish` of crates/thicket-net/src/secure.rs: the Noise handshake of both ends. The library
-- `snow` is a parameter. The stream is the bytes that are still to be read, and those that are
-- written come with the result.
pub mod Authentic
pub mod Messages
pub mod Mutual
use thicket_ai.Base.{
  ℕ, String, Bool, Option, List, [], ◌++◌, Result, ok, ◌>>=◌, ◌>>◌, map_err, ok_or, Bytes,
  if◌then◌else◌,
}
use thicket_ai.Core.{Kernel, Writer}
use thicket_ai.Net.{Error, codec, crypto, handshake, LocalIdentity, VerifiedPeer}
use thicket_ai.Net.Framing.{write_frame, read_frame}
use thicket_ai.Net.Sealing.{Transport}
use thicket_ai.Net.Secure.{IdentityProof, make_proof, verify_identity}

abbrev pub noise_params : String
noise_params = "Noise_XX_25519_ChaChaPoly_SHA256"

-- `snow::Builder` and `snow::HandshakeState`; the builder is given the entropy that they draw
pub record Noise (t : Transport) : Type 1 where
  pub Builder : Type 0
  pub State : Type 0
  pub builder : String → Bytes → Result String Builder
  -- the public and the private key
  pub generate_keypair : Builder → Result String (Bytes × Bytes)
  pub local_private_key : Builder → Bytes → Result String Builder
  pub build_initiator : Builder → Result String State
  pub build_responder : Builder → Result String State
  pub write_message : State → Bytes → Result String (Bytes × State)
  pub read_message : State → Bytes → Result String (Bytes × State)
  pub get_remote_static : State → Option Bytes
  pub into_transport_mode : State → Result String t.State

-- `to_cbor` and `from_cbor` at a proof of identity, and the text of the error of a stream that ends
-- inside a frame
pub record ProofCodec : Type 0 where
  pub to_cbor : IdentityProof → Result String Bytes
  pub from_cbor : Bytes → Result String IdentityProof
  pub eof : String

module _ (k : Kernel) (write_bytes : Writer Bytes) (t : Transport) (n : Noise t)
    (c : ProofCodec) where
  -- `read_frame(stream).await?.ok_or(Error::Handshake)?`
  unfoldable pub read_message_frame : Bytes → Result Error (Bytes × Bytes)
  read_message_frame stream = do frame ← read_frame c.eof stream; ok_or frame handshake

  -- what an end has after its three messages
  pub record Exchanged : Type 0 where
    pub proof : IdentityProof
    pub hs : n.State
    pub rest : Bytes
    pub written : Bytes

  -- the branch of the initiator
  unfoldable pub initiate : n.State → Bytes → Bytes → Result Error Exchanged
  unfolding read_message_frame
  initiate hs proof_bytes stream = do
    first ← map_err crypto (n.write_message hs [])
    sent ← write_frame first.0
    ct ← read_message_frame stream
    payload ← map_err crypto (n.read_message first.1 ct.0)
    proof ← map_err codec (c.from_cbor payload.0)
    last ← map_err crypto (n.write_message payload.1 proof_bytes)
    sent_last ← write_frame last.0
    ok (record { proof = proof; hs = last.1; rest = ct.1; written = sent ++ sent_last })

  -- the branch of the responder
  unfoldable pub respond : n.State → Bytes → Bytes → Result Error Exchanged
  unfolding read_message_frame
  respond hs proof_bytes stream = do
    ct ← read_message_frame stream
    first ← map_err crypto (n.read_message hs ct.0)
    answer ← map_err crypto (n.write_message first.1 proof_bytes)
    sent ← write_frame answer.0
    ct_last ← read_message_frame ct.1
    payload ← map_err crypto (n.read_message answer.1 ct_last.0)
    proof ← map_err codec (c.from_cbor payload.0)
    ok (record { proof = proof; hs = payload.1; rest = ct_last.1; written = sent })

  -- the end of `establish`
  unfoldable pub conclude : Exchanged → ℕ → Result Error (t.State × VerifiedPeer)
  conclude x now = do
    remote_static ← ok_or (n.get_remote_static x.hs) handshake
    peer ← verify_identity k write_bytes x.proof remote_static now
    transport ← map_err crypto (n.into_transport_mode x.hs)
    ok (transport, peer)

  -- `establish` up to the messages: the proof's bytes and the state of the handshake
  unfoldable pub prepare : Bytes → LocalIdentity → Bool → Result Error (Bytes × n.State)
  prepare entropy local initiator = do
    builder ← map_err crypto (n.builder noise_params entropy)
    keypair ← map_err crypto (n.generate_keypair builder)
    proof ← make_proof k write_bytes local keypair.0
    proof_bytes ← map_err codec (c.to_cbor proof)
    keyed ← map_err crypto (n.local_private_key builder keypair.1)
    hs ← map_err crypto (if initiator then n.build_initiator keyed else n.build_responder keyed)
    ok (proof_bytes, hs)

  -- `secure::establish`: the transport and the peer, the rest of the stream and what is written
  unfoldable pub handshake_over :
      Bytes
      → LocalIdentity
      → Bool
      → ℕ
      → Bytes
      → Result Error ((t.State × VerifiedPeer) × Bytes × Bytes)
  unfolding prepare initiate respond conclude
  handshake_over entropy local initiator now stream = do
    prepared ← prepare entropy local initiator
    x ←
        if initiator
        then initiate prepared.1 prepared.0 stream
        else respond prepared.1 prepared.0 stream
    done ← conclude x now
    ok (done, x.rest, x.written)
