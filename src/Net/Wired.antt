-- ===== src/Net/Wired.antt =====
-- Two ends of a connection and what each of their tasks does in one round, over the channels between
-- them: crates/thicket-net/src/conn.rs and server.rs. An unary call is one schedule of these rounds.
pub mod Laws
pub mod Round
pub mod Exchange
pub mod Linking
pub mod Closing
use thicket_ai.Base.{
  ℕ, Bool, true, false, not, Option, none, some, List, [], ◌∷◌, Result, ok, err, Bytes,
  if◌then◌else◌,
}
use thicket_ai.Interconnect.{Fabric}
use thicket_ai.Interconnect.Data.{EnvelopePayload, SignedEnvelope}
use thicket_ai.Net.{Error}
use thicket_ai.Net.Sealing.{Transport}
use thicket_ai.Net.Server.{Request, Reply, is_request, to_request, to_response}
use thicket_ai.Net.Routing.{Channels, Tables}
use thicket_ai.Net.Conn
use thicket_ai.Net.Conn.{
  Codec, Conn, Awaited, delivered, elapsed, writer, reader, call, call_end, send,
}

module _ (f : Fabric) (t : Transport) (ch : Channels) (c : Codec) where
  -- one end: its connection, its tables, the transport and the queue of its tasks
  pub record End : Type 0 where
    pub conn : Conn f t ch c
    pub tables : Tables ch
    pub state : t.State
    pub out_rx : ch.OutRx
    -- whether the tasks still run
    pub writing : Bool
    pub reading : Bool

  -- one round of the writer's task: the bytes that it writes; nothing while its queue is empty or
  -- after it has ended
  unfoldable pub write_next : End → Bytes × End
  write_next e = if not e.writing then ([], e) else elim (ch.recv_frame e.tables.world e.out_rx) [
    | none ↦ ([], e)
    | some (frame, world) ↦
        let written = writer f t ch c (frame ∷ []) e.state in
        (
          written.0,
          record e {
            tables = record e.tables {
              world = if written.2 then world else ch.close_frames world e.out_rx;
            };
            state = written.1;
            writing = written.2;
          },
        )
  ]

  -- one round of the reader's task, at a time, unless it has ended
  unfoldable pub read_next : ℕ → Bytes → End → End
  read_next now stream e =
      let done = reader f t ch c e.conn.peer (now ∷ []) stream e.tables e.state in
      if e.reading then record e { tables = done.0; state = done.1; reading = not done.2 } else e

  -- `recv_request`; none while nothing has come
  unfoldable pub recv_request : Conn f t ch c → Tables ch → Option (SignedEnvelope × Tables ch)
  recv_request conn tables = elim (ch.recv tables.world conn.inbound) [
    | none ↦ none
    | some (env, world) ↦ some (env, record tables { world = world })
  ]

  module _ {S : Type 0} (handler : S → Request → Reply × S) where
    -- one round of `serve_conn`: the result of `send` is ignored
    unfoldable pub serve_next : S → End → S × End
    unfolding recv_request
    serve_next s e = elim (recv_request e.conn e.tables) [
      | none ↦ (s, e)
      | some (env, tables) ↦
          let handled = handler s (to_request e.conn.local_id e.conn.peer env) in
          let resp = to_response e.conn.local_id e.conn.peer env handled.0 in
          if is_request env.payload.typ
          then (handled.1, record e { tables = (send f t ch c e.conn resp tables).1 })
          else (s, record e { tables = tables })
    ]

  -- what came of waiting, at a time at which nothing more will come
  unfoldable pub await : ch.OnceReceiver → End → Awaited × End
  await rx e = elim (ch.recv_once e.tables.world rx) [
    | none ↦ (elapsed, e)
    | some (env, world) ↦ (delivered env, record e { tables = record e.tables { world = world } })
  ]

  -- a client, a server and the state of its handler
  abbrev pub Pair : Type 0 → Type 0
  Pair S = End × End × S

  module _ {S : Type 0} (handler : S → Request → Reply × S) (asked answered : ℕ) where
    -- an unary call between the two: the request crosses, is served at the time `asked`, and the
    -- response crosses back at the time `answered`
    unfoldable pub wired_call : Pair S → EnvelopePayload → Result Error SignedEnvelope × Pair S
    wired_call (client, server, s) payload =
        let started = call f t ch c client.conn payload client.tables in
        let waiting = record client { tables = started.1 } in
        elim started.0 [
          | err e ↦ (err e, (waiting, server, s))
          | ok rx ↦
              let request = write_next waiting in
              let served = serve_next handler s (read_next asked request.0 server) in
              let response = write_next served.1 in
              let got = await rx (read_next answered response.0 request.1) in
              let end = call_end f t ch c payload.correlation got.0 got.1.tables in
              (end.0, (record got.1 { tables = end.1 }, response.1, served.0))
        ]
