-- ===== src/Tests/Dialing.antt =====
-- The theorems on the handshake, and the handler that asks for grants, at concrete data: a handshake
-- that does not hide anything.
use thicket_ai.Base.{
  ℕ, ◌+◌, ◌*◌, ◌≡◌, refl, some, List, [], ◌∷◌, ok, Bytes, All, Has, arith, true, false, ap, list_eq,
}
use thicket_ai.Core.Crypto.{signing_bytes}
use thicket_ai.Core.Identity.{no_revocations, working_public}
use thicket_ai.Core.Identity.Verify.{MaySign}
use thicket_ai.Interconnect.Data.{SignedEnvelope}
use thicket_ai.Interconnect.Envelope.{verify_envelope, request, base, with_auth}
use thicket_ai.Net.{VerifiedPeer}
use thicket_ai.Net.Framing.{to_be_bytes, from_be_bytes, write_frame, read_frame, read_body}
use thicket_ai.Net.Secure.{static_binding_domain, make_proof}
use thicket_ai.Net.Server.{serve_conn}
use thicket_ai.Net.Routing.{Tables}
use thicket_ai.Net.Routing.Delivery.{route_all}
use thicket_ai.Net.Conn
use thicket_ai.Net.Conn.{Conn, expect_peer, reader}
use thicket_ai.Net.Establish.{
  respond, Noise, ProofCodec, read_message_frame, initiate, conclude, prepare, handshake_over,
}
use thicket_ai.Net.Establish.Authentic.{Handshake, established-reader}
use thicket_ai.Net.Establish.Mutual.{NoiseLaws, ProofReadsBack, handshake_over_mutual}
use thicket_ai.Net.Gated.{Served, gated, gated-Served}
use thicket_ai.Tests.World.{
  toy_fabric, toy_kernel, fit, delegate_key, root_key, id, other_id, endorsement,
}
use thicket_ai.Tests.Channel.{plain, local, static, identity, worker_peer, make_runs, authenticated}
use thicket_ai.Tests.Link.{clear, lists, one_envelope, empty_tables}
use thicket_ai.Tests.Grants.{grant}

abbrev pub open_noise : Noise clear
open_noise = record {
  Builder = Unit;
  State = ℕ;
  builder = λ name entropy. ok tt;
  generate_keypair = λ b. ok (static, []);
  local_private_key = λ b key. ok b;
  build_initiator = λ b. ok 0;
  build_responder = λ b. ok 1;
  write_message = λ s m. ok (m, s + 2);
  read_message = λ s c. ok (c, s + 2);
  get_remote_static = λ s. some static;
  into_transport_mode = λ s. ok 0;
}

abbrev pub one_proof : ProofCodec
one_proof = record { to_cbor = λ p. ok (1 ∷ 1 ∷ []); from_cbor = λ b. ok identity; eof = "eof" }

-- what comes over the wire: the answer of the other end, and one envelope
abbrev pub wire : Bytes
wire = 0 ∷ 0 ∷ 0 ∷ 8 ∷ 0 ∷ 0 ∷ 0 ∷ 1 ∷ 0 ∷ 2 ∷ 1 ∷ 2 ∷ []

abbrev stream : Bytes
stream = 0 ∷ 0 ∷ 0 ∷ 2 ∷ 1 ∷ 1 ∷ wire

abbrev pub sent : Bytes
sent = 0 ∷ 0 ∷ 0 ∷ 0 ∷ 0 ∷ 0 ∷ 0 ∷ 2 ∷ 1 ∷ 1 ∷ []

pub handshake_runs :
    handshake_over toy_kernel plain clear open_noise one_proof [] local true 15 stream
    ≡ ok ((0, worker_peer), wire, sent)
unfolding handshake_over prepare initiate conclude read_message_frame write_frame read_frame
    read_body to_be_bytes from_be_bytes
handshake_runs = rw (make_runs, authenticated) refl

abbrev tables : Tables lists
tables = record empty_tables { inbound = 256 }

established :
    Conn.establish toy_fabric clear lists one_envelope local
      (some id)
      []
      (some (ok (0, worker_peer)))
    ≡ ok (
      record {
        local_id = id;
        working = local.working;
        peer = worker_peer;
        out_tx = tt;
        inbound = 256;
      },
      tables,
      0,
      tt,
    )
unfolding Conn.establish expect_peer fit list_eq
established = refl

established-reader_example :
    (run : Handshake toy_kernel plain clear open_noise one_proof [] local true stream wire sent)
    × (key : Bytes) × (message : Bytes) × (envs : List SignedEnvelope)
    × (open_noise.get_remote_static run.exchanged.hs ≡ some key)
    × MaySign toy_kernel run.exchanged.proof.root_public_key run.exchanged.proof.id
        run.exchanged.proof.endorsements run.exchanged.proof.working_pub 15 no_revocations
    × (signing_bytes plain static_binding_domain key ≡ ok message)
    × (toy_kernel.vk_verify run.exchanged.proof.working_pub message run.exchanged.proof.static_sig
        ≡ true)
    × (worker_peer.id ≡ run.exchanged.proof.id)
    × (worker_peer.working_pub ≡ run.exchanged.proof.working_pub)
    × ((reader toy_fabric clear lists one_envelope worker_peer (16 ∷ []) wire tables 0).0
        ≡ route_all lists envs tables)
    × All
        (λ env.
          (now : ℕ) × Has now (16 ∷ [])
          × (verify_envelope toy_fabric env run.exchanged.proof.root_public_key
                run.exchanged.proof.endorsements now no_revocations
              ≡ ok tt))
        envs
established-reader_example =
    established-reader toy_fabric clear lists one_envelope plain open_noise one_proof [] local true
      15 stream wire sent (0, worker_peer) (some id) []
      (record {
        local_id = id;
        working = local.working;
        peer = worker_peer;
        out_tx = tt;
        inbound = 256;
      })
      tables 0 tt (16 ∷ []) handshake_runs established (omega arith, tt)

abbrev pub replied : Bytes
replied = 0 ∷ 0 ∷ 0 ∷ 2 ∷ 1 ∷ 1 ∷ []

-- the other end of the same node
pub responder_runs :
    handshake_over toy_kernel plain clear open_noise one_proof [] local false 15 sent
    ≡ ok ((0, worker_peer), [], replied)
unfolding handshake_over prepare respond conclude read_message_frame write_frame read_frame
    read_body to_be_bytes from_be_bytes
responder_runs = rw (make_runs, authenticated) refl

arrives :
    (s s1 s2 s3 : ℕ) (p m y : Bytes)
    → open_noise.write_message s p ≡ ok (m, s1)
    → open_noise.read_message s2 m ≡ ok (y, s3)
    → y ≡ p
arrives s s1 s2 s3 p m y w r = ground arith

pub open_laws : NoiseLaws open_noise
open_laws = record {
  Paired = λ i r. Unit;
  Over = λ i r. Unit;
  built = λ ci cr i r bi br. tt;
  exchange = λ i i1 i2 i3 r r1 r2 r3 pi pr m1 m2 m3 x y z pair w1 x1 w2 x2 w3 x3.
      (arrives r1 r2 i1 i2 pr m2 y w2 x2, arrives i2 i3 r2 r3 pi m3 z w3 x3, tt);
}

pub reads_back : ProofReadsBack toy_kernel plain clear open_noise one_proof [] local
reads_back b keys p bytes made generated proved coded =
    let same : keys.0 ≡ static = ground (arith, generated) in
    let first : make_proof toy_kernel plain local keys.0 ≡ ok identity = rw same make_runs in
    let q : identity ≡ p = ground (arith, first, proved) in ap ok q

handshake_over_mutual_example :
    (worker_peer.id ≡ local.id)
    × (worker_peer.working_pub ≡ working_public toy_kernel local.working)
    × (worker_peer.id ≡ local.id)
    × (worker_peer.working_pub ≡ working_public toy_kernel local.working)
    × (wire ≡ wire)
    × (◌≡◌ {A = Bytes} [] [])
handshake_over_mutual_example =
    handshake_over_mutual toy_kernel plain clear open_noise one_proof open_laws [] [] local local 15
      15 wire [] sent replied [] wire (0, worker_peer) (0, worker_peer) reads_back reads_back
      handshake_runs responder_runs

-- a request with a grant for its sender
abbrev granted_request : SignedEnvelope
unfolding request base with_auth
granted_request = record {
  payload = with_auth (request (7 ∷ []) other_id id "chat") grant;
  signer_pub = delegate_key;
  signature = [];
}

abbrev guest : VerifiedPeer
guest = record { id = other_id; working_pub = delegate_key; key_not_after = 20 }

-- A clock that is at the end of the grant's time for the first request and behind it for the next.
abbrev running_out : ℕ → ℕ
running_out n = 15 + n * 10

gated-Served_example :
    Served toy_fabric root_key
      (endorsement 10 20 ∷ [])
      running_out
      id
      guest
      0
      (granted_request ∷ granted_request ∷ [])
      (serve_conn id guest
        (gated toy_fabric root_key (endorsement 10 20 ∷ []) running_out id guest)
        0
        (granted_request ∷ granted_request ∷ [])).0
unfolding request with_auth base
gated-Served_example =
    gated-Served toy_fabric root_key (endorsement 10 20 ∷ []) running_out id guest 0
      (granted_request ∷ granted_request ∷ [])
