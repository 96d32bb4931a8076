-- ===== src/Net/Wired/Round.antt =====
-- One round of each task, where nothing fails.
use thicket_ai.Base.{ℕ, ◌≡◌, refl, ap, true, false, some, [], ◌∷◌, ok, Bytes, arith, List_eq, ℕ_eq}
use mathlib.Core.List.{append-nil}
use thicket_ai.Base.Dict
use thicket_ai.Interconnect.{Fabric}
use thicket_ai.Interconnect.Data.{EnvelopeType, EnvelopePayload, SignedEnvelope}
use thicket_ai.Interconnect.Envelope.{sign_envelope}
use thicket_ai.Net.Sealing.{Transport}
use thicket_ai.Net.Sealing.Opening.{TransportLaws}
use thicket_ai.Net.Server.{Request, Reply, is_request, to_request, to_response}
use thicket_ai.Net.Routing.{Channels, Tables, route, route_as, route_response, offer}
use thicket_ai.Net.Routing.Delivery.{completes}
use thicket_ai.Net.Conn.{Codec, Conn, delivered, writer, reader, enqueue, call, send}
use thicket_ai.Net.Conn.Reading.{Trusted}
use thicket_ai.Net.Conn.Traffic.{reader-writer}
use thicket_ai.Net.Wired.{End, write_next, read_next, recv_request, serve_next, await}

module _ (ch : Channels) where
  route_as_answer :
      (typ : EnvelopeType) (env : SignedEnvelope) (tables : Tables ch) (tx : ch.Oneshot)
      → completes typ ≡ true
      → Dict.get env.payload.correlation tables.pending ≡ some tx
      → route_as ch typ env tables ≡ record tables {
        pending = Dict.remove env.payload.correlation tables.pending;
        world = ch.send_once tables.world tx env;
      }
  unfolding route_as route_response
  route_as_answer EnvelopeType.response env tables tx h found =
      rw (route_as, route_response, found) refl
  route_as_answer EnvelopeType.error env tables tx h found =
      rw (route_as, route_response, found) refl
  route_as_answer EnvelopeType.request env tables tx h found = absurd (ground arith)
  route_as_answer EnvelopeType.event env tables tx h found = absurd (ground arith)
  route_as_answer EnvelopeType.stream_chunk env tables tx h found = absurd (ground arith)
  route_as_answer EnvelopeType.cancel env tables tx h found = absurd (ground arith)

  pub route_answer :
      (env : SignedEnvelope) (tables : Tables ch) (tx : ch.Oneshot)
      → completes env.payload.typ ≡ true
      → Dict.get env.payload.correlation tables.pending ≡ some tx
      → route ch env tables ≡ record tables {
        pending = Dict.remove env.payload.correlation tables.pending;
        world = ch.send_once tables.world tx env;
      }
  unfolding route
  route_answer env tables tx h found = route_as_answer env.payload.typ env tables tx h found

  route_as_request :
      (typ : EnvelopeType) (env : SignedEnvelope) (tables : Tables ch)
      → is_request typ ≡ true
      → route_as ch typ env tables
        ≡ record tables { world = (ch.try_send tables.world tables.inbound env).1 }
  unfolding route_as offer
  route_as_request EnvelopeType.request env tables h = refl
  route_as_request EnvelopeType.response env tables h = absurd (ground arith)
  route_as_request EnvelopeType.error env tables h = absurd (ground arith)
  route_as_request EnvelopeType.event env tables h = absurd (ground arith)
  route_as_request EnvelopeType.stream_chunk env tables h = absurd (ground arith)
  route_as_request EnvelopeType.cancel env tables h = absurd (ground arith)

  pub route_request :
      (env : SignedEnvelope) (tables : Tables ch)
      → is_request env.payload.typ ≡ true
      → route ch env tables
        ≡ record tables { world = (ch.try_send tables.world tables.inbound env).1 }
  unfolding route
  route_request env tables h = route_as_request env.payload.typ env tables h

module _ (f : Fabric) (t : Transport) (ch : Channels) (c : Codec) where
  -- An envelope that the codec writes and reads back, in a frame that the writer can seal.
  pub record Portable (env : SignedEnvelope) : Type 0 where
    pub frame : Bytes
    pub coded : c.to_cbor env ≡ ok frame
    pub back : c.from_cbor frame ≡ ok env
    pub writes :
        (s : t.State)
        → (wire : Bytes) × (s' : t.State) × (writer f t ch c (frame ∷ []) s ≡ (wire, s', true))

  pub called :
      (conn : Conn f t ch c) (payload : EnvelopePayload) (tables : Tables ch) (env : SignedEnvelope)
      (frame : Bytes)
      → sign_envelope f payload conn.working ≡ ok env
      → c.to_cbor env ≡ ok frame
      → (ch.send_frame (ch.once_channel tables.world).1 conn.out_tx frame).0 ≡ true
      → call f t ch c conn payload tables ≡ (
        ok (ch.once_channel tables.world).0.1,
        record tables {
          pending =
              Dict.insert payload.correlation (ch.once_channel tables.world).0.0 tables.pending;
          world = (ch.send_frame (ch.once_channel tables.world).1 conn.out_tx frame).1;
        },
      )
  unfolding call enqueue
  called conn payload tables env frame signed coded accepted =
      rw (call, signed, enqueue, coded, accepted) refl

  pub sent :
      (conn : Conn f t ch c) (payload : EnvelopePayload) (tables : Tables ch) (env : SignedEnvelope)
      (frame : Bytes)
      → sign_envelope f payload conn.working ≡ ok env
      → c.to_cbor env ≡ ok frame
      → (send f t ch c conn payload tables).1
        ≡ record tables { world = (ch.send_frame tables.world conn.out_tx frame).1 }
  unfolding send enqueue
  sent conn payload tables env frame signed coded = rw (send, signed, enqueue, coded) refl

  pub wrote :
      (e : End f t ch c) (frame wire : Bytes) (world : ch.World) (s : t.State)
      → e.writing ≡ true
      → ch.recv_frame e.tables.world e.out_rx ≡ some (frame, world)
      → writer f t ch c (frame ∷ []) e.state ≡ (wire, s, true)
      → write_next f t ch c e
        ≡ (wire, record e { tables = record e.tables { world = world }; state = s; writing = true })
  unfolding write_next
  wrote e frame wire world s runs got written = rw (write_next, runs, got, written) refl

  pub was_read :
      (laws : TransportLaws t) (e : End f t ch c) (now : ℕ) (env : SignedEnvelope)
      (frame wire : Bytes) (w w' : t.State)
      → e.reading ≡ true
      → laws.Synced w e.state
      → c.to_cbor env ≡ ok frame
      → c.from_cbor frame ≡ ok env
      → Trusted f e.conn.peer now env
      → writer f t ch c (frame ∷ []) w ≡ (wire, w', true)
      → (s : t.State) × (read_next f t ch c now wire e
          ≡ record e { tables = route ch env e.tables; state = s; reading = true })
        × laws.Synced w' s
  unfolding read_next
  was_read laws e now env frame wire w w' runs synced coded back trusted written =
      let x =
        reader-writer f t ch c e.conn.peer laws (env ∷ []) (frame ∷ []) (now ∷ []) w w' e.state wire
          [] e.tables synced (coded, back, trusted, tt) written in
      let done = reader f t ch c e.conn.peer (now ∷ []) wire e.tables e.state in
      let y : (done.0 ≡ route ch env e.tables) × laws.Synced w' done.1 × (done.2 ≡ false) =
        rw (append-nil wire) at x in
      (
        done.1,
        rw (read_next, runs, y.2)
            (ap (λ a. record e { tables = a; state = done.1; reading = true }) y.0),
        y.1,
      )

  module _ {S : Type 0} (handler : S → Request → Reply × S) where
    pub served :
        (s : S) (e : End f t ch c) (env : SignedEnvelope) (world : ch.World)
        → is_request env.payload.typ ≡ true
        → ch.recv e.tables.world e.conn.inbound ≡ some (env, world)
        → serve_next f t ch c handler s e ≡ (
          (handler s (to_request e.conn.local_id e.conn.peer env)).1,
          record e {
            tables =
                (send f t ch c e.conn
                  (to_response e.conn.local_id e.conn.peer env
                    (handler s (to_request e.conn.local_id e.conn.peer env)).0)
                  (record e.tables { world = world })).1;
          },
        )
    unfolding serve_next recv_request
    served s e env world asks got = rw (serve_next, recv_request, got, asks) refl

  pub awaited :
      (rx : ch.OnceReceiver) (e : End f t ch c) (env : SignedEnvelope) (world : ch.World)
      → ch.recv_once e.tables.world rx ≡ some (env, world)
      → await f t ch c rx e
        ≡ (delivered env, record e { tables = record e.tables { world = world } })
  unfolding await
  awaited rx e env world got = rw (await, got) refl
