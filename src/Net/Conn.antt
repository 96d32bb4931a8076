-- ===== src/Net/Conn.antt =====
-- crates/thicket-net/src/conn.rs: a connection, its two tasks and its calls. The bytes of an
-- envelope come from a codec that is a parameter. Waiting is split: a call is what it does before it
-- waits and what it does with what came of waiting, and the reader's task runs in between.
pub mod Reading
pub mod Calling
pub mod Traffic
pub mod Opening
use thicket_ai.Base.{
  ℕ, zero, suc, String, Bool, true, false, not, ◌||◌, Option, none, some, List, [], ◌∷◌, ◌++◌, ⊤,
  Result, ok, err, ◌>>=◌, ◌>>◌, reject_if, map_err, Bytes, leb, ◌==◌, String_eq, List_eq, ℕ_eq,
  if◌then◌else◌, is_ok,
}
use thicket_ai.Base.Dict
use thicket_ai.Core.{ResourceId, ResourceId_eq, WorkingKey}
use thicket_ai.Interconnect.{Fabric}
use thicket_ai.Interconnect.Data.{EnvelopePayload, SignedEnvelope}
use thicket_ai.Interconnect.Envelope.{event, with_body, sign_envelope, verify_with_key}
use thicket_ai.Net.{
  Error, codec, interconnect, closed, timeout, peer_mismatch, LocalIdentity, VerifiedPeer,
}
use thicket_ai.Net.Framing.{write_frame, read_frame}
use thicket_ai.Net.Sealing.{Transport, encrypt_frame, decrypt_frame}
use thicket_ai.Net.Routing.{Channels, Tables, route}

unfoldable pub peer_key_fresh : ℕ → ℕ → Bool
peer_key_fresh key_not_after now = leb now key_not_after

-- `to_cbor` and `from_cbor` at an envelope, with the text of an error, and the text of the error of
-- a stream that ends inside a frame
pub record Codec : Type 0 where
  pub to_cbor : SignedEnvelope → Result String Bytes
  pub from_cbor : Bytes → Result String SignedEnvelope
  pub eof : String

-- What the call waited for.
pub data Awaited : Type 0 where
  delivered : SignedEnvelope → Awaited
  dropped elapsed : Awaited

module _ (f : Fabric) (t : Transport) (ch : Channels) (c : Codec) where
  pub record Conn : Type 0 where
    pub local_id : ResourceId
    pub working : WorkingKey
    pub peer : VerifiedPeer
    pub out_tx : ch.OutTx
    pub inbound : ch.Receiver

  -- the test on `expected_peer`
  unfoldable pub expect_peer : Option ResourceId → VerifiedPeer → Result Error ⊤
  expect_peer none peer = ok tt
  expect_peer (some expected) peer = reject_if (not (expected == peer.id)) peer_mismatch

  -- `Conn::establish`, of what the handshake gave in time: the connection, its tables, the transport
  -- that its tasks share and the queue that the writer's task takes from
  unfoldable pub establish :
      LocalIdentity
      → Option ResourceId
      → ch.World
      → Option (Result Error (t.State × VerifiedPeer))
      → Result Error (Conn × Tables ch × t.State × ch.OutRx)
  unfolding expect_peer
  establish local expected_peer world none = err timeout
  establish local expected_peer world (some handshake) = do
    made ← handshake
    expect_peer expected_peer made.1
    let out = ch.out_channel 256 world in
        let inbound = ch.channel 256 out.1 in
        ok (
          record {
            local_id = local.id;
            working = local.working;
            peer = made.1;
            out_tx = out.0.0;
            inbound = inbound.0.1;
          },
          record {
            pending = [];
            streams = [];
            event_subs = [];
            inbound = inbound.0.0;
            world = inbound.1;
          },
          made.0,
          out.0.1,
        )

  -- the writer's task on the frames of its queue: the bytes on the wire, the state of the transport,
  -- and whether the task still runs
  unfoldable pub writer : List Bytes → t.State → Bytes × t.State × Bool
  writer [] s = ([], s, true)
  writer (frame ∷ frames) s = elim (encrypt_frame t s frame) [
    | err _ ↦ ([], s, false)
    | ok (bytes, s') ↦ elim (write_frame bytes) [
      | err _ ↦ ([], s', false)
      | ok written ↦ let rest = writer frames s' in (written ++ rest.0, rest.1, rest.2)
    ]
  ]

  -- the reader on a plaintext
  unfoldable pub accept : VerifiedPeer → Bytes → Tables ch → Tables ch
  accept peer plaintext tables = elim (c.from_cbor plaintext) [
    | err _ ↦ tables
    | ok env ↦
        if not (env.payload.from == peer.id) || not (is_ok (verify_with_key f env peer.working_pub))
        then tables
        else route ch env tables
  ]

  -- one round of the reader's loop on a frame, at the time `now`; none is `break`
  unfoldable pub read_one :
      VerifiedPeer → ℕ → Bytes → Tables ch → t.State → Option (Tables ch × t.State)
  unfolding accept peer_key_fresh
  read_one peer now blob tables s =
      if not (peer_key_fresh peer.key_not_after now) then none else elim (decrypt_frame t s blob) [
        | err _ ↦ none
        | ok (plaintext, s') ↦ some (accept peer plaintext tables, s')
      ]

  -- the reader's task on a stream, with the clock's readings, one for each round: the tables, the
  -- state of the transport, and whether the task has ended
  unfoldable pub reader :
      VerifiedPeer → List ℕ → Bytes → Tables ch → t.State → Tables ch × t.State × Bool
  unfolding read_one
  reader peer [] stream tables s = (tables, s, false)
  reader peer (now ∷ clock) stream tables s = elim (read_frame c.eof stream) [
    | err _ ↦ (tables, s, true)
    | ok none ↦ (tables, s, true)
    | ok (some (blob, rest)) ↦ elim (read_one peer now blob tables s) [
      | none ↦ (tables, s, true)
      | some (tables', s') ↦ reader peer clock rest tables' s'
    ]
  ]

  -- a frame on the writer's queue
  unfoldable pub enqueue : Conn → SignedEnvelope → ch.World → Result Error ⊤ × ch.World
  enqueue conn signed world = elim (c.to_cbor signed) [
    | err e ↦ (err (codec e), world)
    | ok bytes ↦
        let sent = ch.send_frame world conn.out_tx bytes in
        (if sent.0 then ok tt else err closed, sent.1)
  ]

  -- `call` up to its wait
  unfoldable pub call :
      Conn → EnvelopePayload → Tables ch → Result Error ch.OnceReceiver × Tables ch
  unfolding enqueue
  call conn payload tables = elim (sign_envelope f payload conn.working) [
    | err e ↦ (err (interconnect e), tables)
    | ok signed ↦
        let made = ch.once_channel tables.world in
        let sent = enqueue conn signed made.1 in
        (
          sent.0 >> ok made.0.1,
          record tables {
            pending = Dict.insert payload.correlation made.0.0 tables.pending;
            world = sent.1;
          },
        )
  ]

  -- `call` after its wait
  unfoldable pub call_end : Bytes → Awaited → Tables ch → Result Error SignedEnvelope × Tables ch
  call_end correlation (delivered env) tables = (ok env, tables)
  call_end correlation dropped tables = (err closed, tables)
  call_end correlation elapsed tables =
      (err timeout, record tables { pending = Dict.remove correlation tables.pending })

  unfoldable pub call_stream :
      Conn → EnvelopePayload → Tables ch → Result Error ch.Receiver × Tables ch
  unfolding enqueue
  call_stream conn payload tables = elim (sign_envelope f payload conn.working) [
    | err e ↦ (err (interconnect e), tables)
    | ok signed ↦
        let made = ch.channel 64 tables.world in
        let sent = enqueue conn signed made.1 in
        (
          sent.0 >> ok made.0.1,
          record tables {
            streams = Dict.insert payload.correlation made.0.0 tables.streams;
            world = sent.1;
          },
        )
  ]

  unfoldable pub send : Conn → EnvelopePayload → Tables ch → Result Error ⊤ × Tables ch
  unfolding enqueue
  send conn payload tables = elim (sign_envelope f payload conn.working) [
    | err e ↦ (err (interconnect e), tables)
    | ok signed ↦
        let sent = enqueue conn signed tables.world in (sent.0, record tables { world = sent.1 })
  ]

  unfoldable pub subscribe : String → Tables ch → ch.Receiver × Tables ch
  subscribe topic tables =
      let made = ch.channel 64 tables.world in
      (
        made.0.1,
        record tables { event_subs = Dict.insert topic made.0.0 tables.event_subs; world = made.1 },
      )

  -- `emit`, with the fresh correlation of its event
  unfoldable pub emit : Conn → Bytes → String → Bytes → Tables ch → Result Error ⊤ × Tables ch
  unfolding send event with_body
  emit conn fresh topic body tables =
      send conn (with_body (event fresh conn.local_id conn.peer.id topic) body) tables
