-- ===== src/Tests/Wires.antt =====
-- The theorems on whole calls at concrete data: channels that are queues, a cipher that hides
-- nothing, and a codec with one request and one response.
use thicket_ai.Base.{
  ℕ, ◌≡◌, refl, sym, ◌∙◌, as_bytes, list_eq, true, false, if◌then◌else◌, [], ◌∷◌, ◌++◌, Result, ok,
  Bytes, length, ltb, arith, ap,
}
use thicket_ai.Core.{WorkingKey}
use thicket_ai.Core.Crypto.{signing_bytes}
use thicket_ai.Core.Identity.{working_public, working_sign}
use thicket_ai.Interconnect.Data
use thicket_ai.Interconnect.Data.{EnvelopePayload, SignedEnvelope}
use thicket_ai.Interconnect.Envelope
use thicket_ai.Interconnect.Envelope.{
  envelope_domain, request, response, with_body, base, sign_envelope,
}
use thicket_ai.Net.{VerifiedPeer}
use thicket_ai.Net.Framing.{write_frame, to_be_bytes}
use thicket_ai.Net.Sealing.{chunks, chunks_from, to_be_bytes_16, seal_chunks, encrypt_frame}
use thicket_ai.Net.Server.{Request, Reply, is_request, to_request, to_response}
use thicket_ai.Net.Routing.{Tables}
use thicket_ai.Net.Conn.{Codec, writer}
use thicket_ai.Net.Wired.{End, wired_call}
use thicket_ai.Net.Wired.Laws.{Linked}
use thicket_ai.Net.Wired.Round.{Portable}
use thicket_ai.Net.Wired.Exchange.{wired_call_answers}
use thicket_ai.Registry.{Registry, new_registry}
use thicket_ai.Directory.{deregister_cap, handle, handle_deregister}
use thicket_ai.Directory.Client.Simulation.{asking}
use thicket_ai.Directory.Client.Wired.{serving}
use thicket_ai.Tests.World.{
  fit, toy_kernel, toy_laws, toy_fabric, worker, delegate, whole, by_length, worker_key,
  delegate_key, id, other_id,
}
use thicket_ai.Tests.Queues.{queues, queue_laws}
use thicket_ai.Tests.Link.{clear, clear_laws}
use thicket_ai.Tests.Directories.{wire, client_wire, client}

abbrev pub start_of : Registry whole
start_of = new_registry whole

-- what signing gives
abbrev pub sealed : WorkingKey → EnvelopePayload → SignedEnvelope
sealed key p = record {
  payload = p;
  signer_pub = working_public toy_kernel key;
  signature =
      working_sign toy_kernel key (as_bytes envelope_domain ++ (0 ∷ p.v ∷ p.correlation ++ p.body));
}

pub signed :
    (p : EnvelopePayload) (key : WorkingKey) → sign_envelope toy_fabric p key ≡ ok (sealed key p)
unfolding sign_envelope signing_bytes
signed p key = refl

pub ok_injective :
    {x y : SignedEnvelope} → ◌≡◌ {A = Result Data.Error SignedEnvelope} (ok x) (ok y) → x ≡ y
ok_injective h = ground (arith, h)

-- the client withdraws its record
abbrev pub withdrawal : EnvelopePayload
withdrawal = asking client_wire client (7 ∷ []) deregister_cap []

abbrev pub the_request : SignedEnvelope
the_request = sealed worker withdrawal

abbrev pub by_client : VerifiedPeer
by_client = record { id = id; working_pub = worker_key; key_not_after = 20 }

abbrev pub by_server : VerifiedPeer
by_server = record { id = other_id; working_pub = delegate_key; key_not_after = 20 }

abbrev pub answer : EnvelopePayload
answer = to_response other_id by_client the_request (Reply.ok [])

abbrev pub the_response : SignedEnvelope
the_response = sealed delegate answer

-- a byte for a request, two for a response
abbrev pub bytes_of : SignedEnvelope → Bytes
bytes_of env = if is_request env.payload.typ then 1 ∷ [] else 2 ∷ 2 ∷ []

abbrev pub pair_codec : Codec
pair_codec = record {
  to_cbor = λ env. ok (bytes_of env);
  from_cbor = λ b. ok (if ltb (length b) 2 then the_request else the_response);
  eof = "eof";
}

asks : is_request withdrawal.typ ≡ true
unfolding request with_body base
asks = refl

answers :
    (reply : Reply) → is_request (to_response other_id by_client the_request reply).typ ≡ false
unfolding to_response response with_body base Envelope.error
answers (Reply.ok body) = refl
answers (Reply.error code message) = refl

writes_one :
    (s : ℕ)
    → (w : Bytes) × (s' : ℕ) × (writer toy_fabric clear queues pair_codec ((1 ∷ []) ∷ []) s
        ≡ (w, s', true))
unfolding writer write_frame encrypt_frame seal_chunks chunks chunks_from to_be_bytes to_be_bytes_16
writes_one s = (_, _, refl)

writes_two :
    (s : ℕ)
    → (w : Bytes) × (s' : ℕ) × (writer toy_fabric clear queues pair_codec ((2 ∷ 2 ∷ []) ∷ []) s
        ≡ (w, s', true))
unfolding writer write_frame encrypt_frame seal_chunks chunks chunks_from to_be_bytes to_be_bytes_16
writes_two s = (_, _, refl)

pub request_Portable : Portable toy_fabric clear queues pair_codec the_request
request_Portable = record { frame = 1 ∷ []; coded = rw asks refl; back = refl; writes = writes_one }

pub response_Portable : Portable toy_fabric clear queues pair_codec the_response
response_Portable = record {
  frame = 2 ∷ 2 ∷ [];
  coded = rw (answers (Reply.ok [])) refl;
  back = refl;
  writes = writes_two;
}

abbrev pub ToyEnd : Type 0
ToyEnd = End toy_fabric clear queues pair_codec

abbrev pub resting : Tables queues
resting = record {
  pending = [];
  streams = [];
  event_subs = [];
  inbound = tt;
  world = record { frames = []; inbox = []; told = [] };
}

abbrev pub client_end : ToyEnd
client_end = record {
  conn = record { local_id = id; working = worker; peer = by_server; out_tx = tt; inbound = tt };
  tables = resting;
  state = 0;
  out_rx = tt;
  writing = true;
  reading = true;
}

abbrev pub server_end : ToyEnd
server_end = record {
  conn = record {
    local_id = other_id;
    working = delegate;
    peer = by_client;
    out_tx = tt;
    inbound = tt;
  };
  tables = resting;
  state = 0;
  out_rx = tt;
  writing = true;
  reading = true;
}

abbrev pub service : Registry whole → Request → Reply × Registry whole
service = serving toy_fabric clear queues pair_codec wire toy_kernel by_length 15 16

pub linked : Linked toy_fabric clear queues pair_codec clear_laws queue_laws client_end server_end
unfolding working_public
linked = record {
  synced = refl;
  knows = refl;
  knows_key = refl;
  known = refl;
  known_key = refl;
  running = (refl, refl);
  running' = (refl, refl);
  idle = (refl, refl);
  idle' = (refl, refl);
}

-- the directory's answer, whatever it holds
pub served_answer :
    (now : ℕ) (reg : Registry whole)
    → (handle wire toy_kernel by_length reg (to_request other_id by_client the_request) now).0
      ≡ Reply.ok []
unfolding handle handle_deregister to_request request with_body base list_eq fit
served_answer now reg = refl

pub signs_answer :
    (reg : Registry whole)
    → sign_envelope toy_fabric
        (to_response other_id by_client the_request
          (service reg (to_request other_id by_client the_request)).0)
        delegate
      ≡ ok the_response
signs_answer reg =
    ap (λ r. sign_envelope toy_fabric (to_response other_id by_client the_request r) delegate)
      (served_answer 15 reg)
    ∙ signed answer delegate

wired_call_answers_example :
    (client' : ToyEnd) × (server' : ToyEnd) × (wired_call toy_fabric clear queues pair_codec service
        15 16
        (client_end, server_end, start_of)
        withdrawal
      ≡ (
        ok the_response,
        (client', server', (service start_of (to_request other_id by_client the_request)).1),
      ))
    × Linked toy_fabric clear queues pair_codec clear_laws queue_laws client' server'
    × (client'.conn ≡ client_end.conn)
    × (server'.conn ≡ server_end.conn)
unfolding request with_body base
wired_call_answers_example =
    wired_call_answers toy_fabric clear queues pair_codec service clear_laws queue_laws toy_laws
      (λ a b e. sym e) 15 16 client_end server_end start_of withdrawal the_request the_response
      linked (signed withdrawal worker) refl refl request_Portable (signs_answer start_of)
      response_Portable (omega arith) (omega arith)
