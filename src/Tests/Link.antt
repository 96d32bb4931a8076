-- ===== src/Tests/Link.antt =====
-- The theorems on connections at concrete data: a transport that does not hide anything, channels
-- that are a list of what was sent, and a codec with one envelope.
use thicket_ai.Base.{
  ℕ, ◌+◌, ◌<◌, ◌≡◌, ◌≢◌, ◌⊎◌, refl, inr, true, false, not, ◌&&◌, if◌then◌else◌, none, some, List,
  [], ◌∷◌, ◌++◌, ok, err, as_bytes, Bytes, length, arith, ltb, list_eq, List_eq, ℕ_eq,
}
use thicket_ai.Base.Dict
use thicket_ai.Core.Crypto.{signing_bytes, verify_raw, verify_signature}
use thicket_ai.Core.Identity.{working_public, working_sign}
use thicket_ai.Interconnect.Data
use thicket_ai.Interconnect.Data.{EnvelopeType, EnvelopePayload, SignedEnvelope}
use thicket_ai.Interconnect.Envelope.{
  envelope_domain, request, response, stream_chunk, base, sign_envelope, verify_with_key,
}
use thicket_ai.Net.{VerifiedPeer, codec}
use thicket_ai.Net.Framing.{to_be_bytes, write_frame}
use thicket_ai.Net.Sealing.{
  Transport, chunks, chunks_from, to_be_bytes_16, seal_chunks, encrypt_frame, decrypt_frame,
}
use thicket_ai.Net.Sealing.Opening.{TransportLaws, decrypt_frame-encrypt_frame}
use thicket_ai.Net.Routing.{Channels, Tables, route}
use thicket_ai.Net.Routing.Delivery.{route_all, route_chunk_exact}
use thicket_ai.Net.Conn.{Codec, Conn, call, enqueue, reader, writer}
use thicket_ai.Net.Conn.Reading.{Trusted, reader_ends}
use thicket_ai.Net.Conn.Calling.{
  Event, arrives, subscribes, AllQuiet, step, run, call_answered, call_failed,
}
use thicket_ai.Net.Conn.Traffic.{reader-writer}
use thicket_ai.Tests.World.{
  toy_fabric, toy_sign, fit, pack, doubled, worker, worker_key, id, other_id,
}

-- what is sealed is the message, and the state counts the messages
abbrev pub clear : Transport
clear = record {
  State = ℕ;
  write_message = λ s m. if ltb (length m) 65536 then ok (m, s + 1) else err "too long";
  read_message = λ s c. ok (c, s + 1);
}

pub clear_fits : (s s' : ℕ) (m c : Bytes) → clear.write_message s m ≡ ok (c, s') → length c < 65536
clear_fits s s' m c h = ground arith

pub clear_reads :
    (w r w' : ℕ) (m c : Bytes)
    → w ≡ r
    → clear.write_message w m ≡ ok (c, w')
    → (r' : ℕ) × (clear.read_message r c ≡ ok (m, r')) × (w' ≡ r')
clear_reads w r w' m c s h = (r + 1, ground arith, ground arith)

abbrev pub clear_laws : TransportLaws clear
clear_laws = record {
  Synced = λ w r. w ≡ r;
  fits = λ w r w' m c s h. clear_fits w w' m c h;
  reads = clear_reads;
}

-- a channel has a number; the world is what was sent, newest first
abbrev pub lists : Channels
lists = record {
  World = List (ℕ × SignedEnvelope);
  Oneshot = ℕ;
  Sender = ℕ;
  send_once = λ w tx env. (tx, env) ∷ w;
  try_send = λ w tx env. (true, (tx, env) ∷ w);
  OnceReceiver = ℕ;
  Receiver = ℕ;
  once_channel = λ w. ((length w + 10, length w + 10), w);
  channel = λ n w. ((n, n), w);
  OutTx = Unit;
  OutRx = Unit;
  out_channel = λ n w. ((tt, tt), w);
  send_frame = λ w out b. (true, w);
  capacity = λ w tx. 256;
  max_capacity = λ tx. 256;
  recv_frame = λ w rx. none;
  close_frames = λ w rx. w;
  recv = λ w rx. none;
  recv_once = λ w rx. none;
}

abbrev pub question : SignedEnvelope
unfolding request base
question = record {
  payload = request (7 ∷ []) id other_id "chat";
  signer_pub = worker_key;
  signature = toy_sign worker_key (as_bytes envelope_domain ++ 0 ∷ 1 ∷ 7 ∷ []);
}

abbrev pub one_envelope : Codec
one_envelope = record {
  to_cbor = λ env. ok (1 ∷ 2 ∷ []);
  from_cbor = λ b. ok question;
  eof = "eof";
}

-- a codec that writes nothing
abbrev broken : Codec
broken = record { to_cbor = λ env. err "broken"; from_cbor = λ b. err "broken"; eof = "eof" }

abbrev pub empty_tables : Tables lists
empty_tables = record { pending = []; streams = []; event_subs = []; inbound = 0; world = [] }

-- one end
abbrev pub peer : VerifiedPeer
peer = record { id = id; working_pub = worker_key; key_not_after = 20 }

abbrev pub conn : (c : Codec) → Conn toy_fabric clear lists c
conn c = record {
  local_id = id;
  working = worker;
  peer = record { id = other_id; working_pub = worker_key; key_not_after = 20 };
  out_tx = tt;
  inbound = 0;
}

encrypt_runs : encrypt_frame clear 0 (1 ∷ 2 ∷ []) ≡ ok (0 ∷ 0 ∷ 0 ∷ 1 ∷ 0 ∷ 2 ∷ 1 ∷ 2 ∷ [], 1)
unfolding encrypt_frame seal_chunks chunks chunks_from to_be_bytes to_be_bytes_16
encrypt_runs = refl

decrypt_frame-encrypt_frame_example :
    (r' : ℕ) × (decrypt_frame clear 0 ((0 ∷ 0 ∷ 0 ∷ 1 ∷ 0 ∷ 2 ∷ 1 ∷ 2 ∷ []) ++ 9 ∷ [])
      ≡ ok (1 ∷ 2 ∷ [], r'))
    × (1 ≡ r')
decrypt_frame-encrypt_frame_example =
    decrypt_frame-encrypt_frame clear clear_laws 0 0 1 (1 ∷ 2 ∷ [])
      (0 ∷ 0 ∷ 0 ∷ 1 ∷ 0 ∷ 2 ∷ 1 ∷ 2 ∷ []) (9 ∷ []) refl (omega arith) encrypt_runs

abbrev wire : Bytes
wire = 0 ∷ 0 ∷ 0 ∷ 8 ∷ 0 ∷ 0 ∷ 0 ∷ 1 ∷ 0 ∷ 2 ∷ 1 ∷ 2 ∷ []

writer_runs : writer toy_fabric clear lists one_envelope ((1 ∷ 2 ∷ []) ∷ []) 0 ≡ (wire, 1, true)
unfolding writer write_frame encrypt_frame seal_chunks chunks chunks_from to_be_bytes to_be_bytes_16
writer_runs = refl

pub question_signed : verify_with_key toy_fabric question worker_key ≡ ok tt
unfolding verify_with_key verify_signature verify_raw signing_bytes as_bytes fit pack doubled
    list_eq question
question_signed = refl

pub question-Trusted : Trusted toy_fabric peer 15 question
unfolding question
question-Trusted = record { sender = refl; signed = question_signed; fresh = omega arith }

reader-writer_example :
    ((reader toy_fabric clear lists one_envelope peer (15 ∷ []) (wire ++ 3 ∷ []) empty_tables 0).0
      ≡ route_all lists (question ∷ []) empty_tables)
    × clear_laws.Synced 1
        (reader toy_fabric clear lists one_envelope peer
          (15 ∷ [])
          (wire ++ 3 ∷ [])
          empty_tables
          0).1
    × ((reader toy_fabric clear lists one_envelope peer (15 ∷ []) (wire ++ 3 ∷ []) empty_tables 0).2
        ≡ false)
reader-writer_example =
    reader-writer toy_fabric clear lists one_envelope peer clear_laws (question ∷ [])
      ((1 ∷ 2 ∷ []) ∷ []) (15 ∷ []) 0 1 0 wire (3 ∷ []) empty_tables refl
      (refl, refl, question-Trusted, tt) writer_runs

reader_ends_example :
    (reader toy_fabric clear lists one_envelope peer
      (15 ∷ 16 ∷ [])
      (0 ∷ 0 ∷ 0 ∷ 1 ∷ 5 ∷ [])
      empty_tables
      0).2
    ≡ true
reader_ends_example =
    reader_ends toy_fabric clear lists one_envelope peer (15 ∷ 16 ∷ []) (0 ∷ 0 ∷ 0 ∷ 1 ∷ 5 ∷ [])
      empty_tables 0 (omega arith)

-- an answer to the question, and one to another
abbrev reply : Bytes → SignedEnvelope
unfolding response base
reply correlation = record {
  payload = response other_id id correlation;
  signer_pub = worker_key;
  signature = [];
}

abbrev chunk : SignedEnvelope
unfolding stream_chunk base
chunk = record {
  payload = stream_chunk other_id id (7 ∷ []) 0 false;
  signer_pub = worker_key;
  signature = [];
}

abbrev waiting : Tables lists
waiting = record empty_tables { pending = (7 ∷ [], 10) ∷ [] }

call_runs :
    call toy_fabric clear lists one_envelope (conn one_envelope) question.payload empty_tables
    ≡ (ok 10, waiting)
unfolding call enqueue sign_envelope signing_bytes as_bytes working_public working_sign question
    request base Dict.insert
call_runs = refl

abbrev meanwhile : List Event
unfolding reply
meanwhile = arrives (reply (8 ∷ [])) ∷ subscribes "news" ∷ []

quiet : AllQuiet (7 ∷ []) meanwhile
unfolding meanwhile reply response base
quiet = (inr (λ q. ground (arith, q)), (tt, tt))

call_answered_example :
    (◌≡◌ {A = ℕ} 10 10)
    × ((step toy_fabric clear lists one_envelope
          (conn one_envelope)
          (arrives (reply (7 ∷ [])))
          (run toy_fabric clear lists one_envelope (conn one_envelope) meanwhile waiting)).world
        ≡ lists.send_once
            (run toy_fabric clear lists one_envelope (conn one_envelope) meanwhile waiting).world
            10
            (reply (7 ∷ [])))
    × (Dict.get
          (7 ∷ [])
          (step toy_fabric clear lists one_envelope
            (conn one_envelope)
            (arrives (reply (7 ∷ [])))
            (run toy_fabric clear lists one_envelope (conn one_envelope) meanwhile waiting)).pending
        ≡ none)
unfolding question request base reply response
call_answered_example =
    call_answered toy_fabric clear lists one_envelope (conn one_envelope) question.payload
      empty_tables waiting 10 meanwhile (reply (7 ∷ [])) call_runs quiet refl refl

call_breaks :
    call toy_fabric clear lists broken (conn broken) question.payload empty_tables
    ≡ (err (codec "broken"), waiting)
unfolding call enqueue sign_envelope signing_bytes as_bytes working_public working_sign question
    request base Dict.insert
call_breaks = refl

call_failed_example :
    ((waiting ≡ empty_tables)
      × (x : Data.Error) × (sign_envelope toy_fabric question.payload worker ≡ err x))
    ⊎ (Dict.get question.payload.correlation waiting.pending ≡ some 10)
call_failed_example =
    call_failed toy_fabric clear lists broken (conn broken) question.payload empty_tables waiting
      (codec "broken") call_breaks

abbrev streaming : Tables lists
streaming = record empty_tables { streams = (7 ∷ [], 64) ∷ (8 ∷ [], 65) ∷ [] }

chunk_arrives : Dict.get chunk.payload.correlation streaming.streams ≡ some 64
unfolding Dict.get chunk stream_chunk base list_eq
chunk_arrives = refl

other_stream : (8 ∷ []) ≢ chunk.payload.correlation
unfolding chunk stream_chunk base
other_stream q = ground (arith, q)

route_chunk_exact_example :
    (Dict.get chunk.payload.correlation (route lists chunk streaming).streams
      ≡ (if true && not chunk.payload.stream_end then some 64 else none))
    × (Dict.get (8 ∷ []) (route lists chunk streaming).streams
        ≡ Dict.get (8 ∷ []) streaming.streams)
    × ((route lists chunk streaming).pending ≡ streaming.pending)
    × ((route lists chunk streaming).world ≡ (64, chunk) ∷ [])
unfolding chunk stream_chunk base
route_chunk_exact_example =
    route_chunk_exact lists chunk streaming 64 (8 ∷ []) refl chunk_arrives other_stream
