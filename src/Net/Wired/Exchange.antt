-- ===== src/Net/Wired/Exchange.antt =====
-- A whole unary call, from the client's table of pending calls to the server's handler and back.
use thicket_ai.Base.{ℕ, ◌≡◌, ◌≤◌, refl, ap, sym, ◌∙◌, true, some, ok, Bytes, List_eq, ℕ_eq}
use thicket_ai.Base.Dict
use thicket_ai.Base.Dict.{get-insert_self}
use thicket_ai.Core.{ResourceId, PrimitiveLaws}
use thicket_ai.Core.Identity.{working_public}
use thicket_ai.Interconnect.{Fabric}
use thicket_ai.Interconnect.Data.{EnvelopePayload, SignedEnvelope}
use thicket_ai.Interconnect.Envelope
use thicket_ai.Interconnect.Envelope.{sign_envelope, response, with_body, base}
use thicket_ai.Interconnect.Envelope.Signing.{verify_with_key-sign_envelope}
use thicket_ai.Net.{VerifiedPeer}
use thicket_ai.Net.Sealing.{Transport}
use thicket_ai.Net.Sealing.Opening.{TransportLaws}
use thicket_ai.Net.Server.{Request, Reply, is_request, to_request, to_response, to_response_fields}
use thicket_ai.Net.Routing.{Channels, Tables}
use thicket_ai.Net.Routing.Delivery.{completes}
use thicket_ai.Net.Conn.{Codec, Conn, delivered, call, call_end}
use thicket_ai.Net.Conn.Reading.{Trusted}
use thicket_ai.Net.Wired.{End, write_next, read_next, serve_next, await, wired_call}
use thicket_ai.Net.Wired.Laws.{ChannelLaws, Linked}
use thicket_ai.Net.Wired.Round.{
  Portable, route_request, route_answer, called, sent, wrote, was_read, served, awaited,
}

to_response-completes :
    (local_id : ResourceId) (peer : VerifiedPeer) (env : SignedEnvelope) (reply : Reply)
    → completes (to_response local_id peer env reply).typ ≡ true
unfolding to_response response with_body base Envelope.error
to_response-completes local_id peer env (Reply.ok body) = refl
to_response-completes local_id peer env (Reply.error code message) = refl

module _ (f : Fabric) (t : Transport) (ch : Channels) (c : Codec) where
  signed-Trusted :
      (pl : PrimitiveLaws f.crypto) (a b : Conn f t ch c) (p : EnvelopePayload)
      (env : SignedEnvelope) (now : ℕ)
      → sign_envelope f p a.working ≡ ok env
      → p.from ≡ a.local_id
      → b.peer.id ≡ a.local_id
      → b.peer.working_pub ≡ working_public f.kernel a.working
      → now ≤ b.peer.key_not_after
      → Trusted f b.peer now env
  signed-Trusted pl a b p env now signed own id key fresh =
      let x = verify_with_key-sign_envelope f pl p a.working env signed in
      record { sender = ap (λ q. q.from) x.1 ∙ own ∙ sym id; signed = rw key x.0; fresh = fresh }

module _ (f : Fabric) (t : Transport) (ch : Channels) (c : Codec) {S : Type 0}
    (handler : S → Request → Reply × S) where
  -- the rounds of a call, one after the other
  wired_call_rounds :
      (asked answered : ℕ) (client server : End f t ch c) (s s' : S) (payload : EnvelopePayload)
      (rx : ch.OnceReceiver) (tables : Tables ch) (wire wire' : Bytes)
      (client1 client2 client3 server1 server2 server3 : End f t ch c) (env : SignedEnvelope)
      → call f t ch c client.conn payload client.tables ≡ (ok rx, tables)
      → write_next f t ch c (record client { tables = tables }) ≡ (wire, client1)
      → read_next f t ch c asked wire server ≡ server1
      → serve_next f t ch c handler s server1 ≡ (s', server2)
      → write_next f t ch c server2 ≡ (wire', server3)
      → read_next f t ch c answered wire' client1 ≡ client2
      → await f t ch c rx client2 ≡ (delivered env, client3)
      → wired_call f t ch c handler asked answered (client, server, s) payload
        ≡ (ok env, (client3, server3, s'))
  unfolding wired_call call_end
  wired_call_rounds asked answered client server s s' payload rx tables wire wire' client1 client2
        client3 server1 server2 server3 env started w1 r1 h w2 r2 a =
      rw (wired_call, started, started, w1, r1, h, w2, r2, a) refl

  -- A call over an idle connection reaches the handler of the other end once, and its caller gets the
  -- handler's signed response; the connection is idle again and the two ends know each other as
  -- before, so that calls can follow one another. Both envelopes are written and read back by the
  -- codec and sealed, and each end still trusts the key of the other when it reads.
  pub wired_call_answers :
      (tl : TransportLaws t) (cl : ChannelLaws ch) (pl : PrimitiveLaws f.crypto)
      (mirrored : (a b : t.State) → tl.Synced a b → tl.Synced b a) (asked answered : ℕ)
      (client server : End f t ch c) (s : S) (payload : EnvelopePayload) (env resp : SignedEnvelope)
      → Linked f t ch c tl cl client server
      → sign_envelope f payload client.conn.working ≡ ok env
      → payload.from ≡ client.conn.local_id
      → is_request payload.typ ≡ true
      → Portable f t ch c env
      → sign_envelope f
          (to_response server.conn.local_id server.conn.peer env
            (handler s (to_request server.conn.local_id server.conn.peer env)).0)
          server.conn.working
        ≡ ok resp
      → Portable f t ch c resp
      → asked ≤ server.conn.peer.key_not_after
      → answered ≤ client.conn.peer.key_not_after
      → (client' : End f t ch c) × (server' : End f t ch c) × (wired_call f t ch c handler asked
            answered
            (client, server, s)
            payload
          ≡ (
            ok resp,
            (
              client',
              server',
              (handler s (to_request server.conn.local_id server.conn.peer env)).1,
            ),
          ))
        × Linked f t ch c tl cl client' server'
        × (client'.conn ≡ client.conn)
        × (server'.conn ≡ server.conn)
  wired_call_answers tl cl pl mirrored asked answered client server s payload env resp link signed
        own asks carried signed' carried' fresh fresh' =
      let a = client.conn in
      let b = server.conn in
      let m = ch.once_channel client.tables.world in
      let i1 =
        cl.once client.tables.world a.out_tx client.out_rx client.tables.inbound a.inbound
          link.idle in
      let q1 =
        cl.frame m.1 a.out_tx client.out_rx client.tables.inbound a.inbound carried.frame i1.0 in
      let tables1 : Tables ch = record client.tables {
        pending = Dict.insert payload.correlation m.0.0 client.tables.pending;
        world = (ch.send_frame m.1 a.out_tx carried.frame).1;
      } in
      let waiting : End f t ch c = record client { tables = tables1 } in
      let sealed = carried.writes client.state in
      let client1 : End f t ch c = record waiting {
        tables = record tables1 { world = q1.0 };
        state = sealed.1;
        writing = true;
      } in
      let read =
        was_read f t ch c tl server asked env carried.frame sealed.0 client.state sealed.1
          link.running'.1 link.synced carried.coded carried.back
          (signed-Trusted f t ch c pl a b payload env asked signed own link.knows link.knows_key
            fresh)
          sealed.2 in
      let same = (verify_with_key-sign_envelope f pl payload a.working env signed).1 in
      let request : is_request env.payload.typ ≡ true = rw same asks in
      let inq =
        cl.inbound server.tables.world b.out_tx server.out_rx server.tables.inbound b.inbound env
          link.idle' in
      let server1 : End f t ch c = record server {
        tables = record server.tables {
          world = (ch.try_send server.tables.world server.tables.inbound env).1;
        };
        state = read.0;
        reading = true;
      } in
      let handled = handler s (to_request b.local_id b.peer env) in
      let p = to_response b.local_id b.peer env handled.0 in
      let server2 : End f t ch c = record server1 {
        tables = record server1.tables { world = (ch.send_frame inq.0 b.out_tx carried'.frame).1 };
      } in
      let q2 =
        cl.frame inq.0 b.out_tx server.out_rx server.tables.inbound b.inbound carried'.frame
          inq.2 in
      let sealed' = carried'.writes read.0 in
      let server3 : End f t ch c = record server2 {
        tables = record server2.tables { world = q2.0 };
        state = sealed'.1;
        writing = true;
      } in
      let fields = to_response_fields b.local_id b.peer env handled.0 in
      let read' =
        was_read f t ch c tl client1 answered resp carried'.frame sealed'.0 read.0 sealed'.1
          link.running.1 (mirrored sealed.1 read.0 read.2) carried'.coded carried'.back
          (signed-Trusted f t ch c pl b a p resp answered signed' fields.2 link.known link.known_key
            fresh')
          sealed'.2 in
      let same' = (verify_with_key-sign_envelope f pl p b.working resp signed').1 in
      let correlation : resp.payload.correlation ≡ payload.correlation =
        ap (λ x. x.correlation) same' ∙ fields.0 ∙ ap (λ x. x.correlation) same in
      let found : Dict.get resp.payload.correlation client1.tables.pending ≡ some m.0.0 =
        rw (correlation, get-insert_self payload.correlation m.0.0 client.tables.pending) refl in
      let done : completes resp.payload.typ ≡ true =
        rw same' (to_response-completes b.local_id b.peer env handled.0) in
      let told =
        cl.answer q1.0 a.out_tx client.out_rx client.tables.inbound a.inbound m.0.0 m.0.1 resp q1.3
          (q1.4 m.0.0 m.0.1 i1.1) in
      let client2 : End f t ch c = record client1 {
        tables = record client1.tables {
          pending = Dict.remove resp.payload.correlation client1.tables.pending;
          world = ch.send_once q1.0 m.0.0 resp;
        };
        state = read'.0;
        reading = true;
      } in
      let client3 : End f t ch c = record client2 {
        tables = record client2.tables { world = told.0 };
      } in
      (
        client3,
        server3,
        wired_call_rounds asked answered client server s handled.1 payload m.0.1 tables1 sealed.0
            sealed'.0 client1 client2 client3 server1 server2 server3 resp
            (called f t ch c a payload client.tables env carried.frame signed carried.coded q1.1)
            (wrote f t ch c waiting carried.frame sealed.0 q1.0 sealed.1 link.running.0 q1.2
              sealed.2)
            (read.1
              ∙ ap (λ x. record server { tables = x; state = read.0; reading = true })
                  (route_request ch env server.tables request))
            (served f t ch c handler s server1 env inq.0 request inq.1
              ∙ ap (λ x. (handled.1, record server1 { tables = x }))
                  (sent f t ch c b p (record server1.tables { world = inq.0 }) resp carried'.frame
                    signed' carried'.coded))
            (wrote f t ch c server2 carried'.frame sealed'.0 q2.0 sealed'.1 link.running'.0 q2.2
              sealed'.2)
            (read'.1
              ∙ ap (λ x. record client1 { tables = x; state = read'.0; reading = true })
                  (route_answer ch resp client1.tables m.0.0 done found))
            (awaited f t ch c m.0.1 client2 resp told.0 told.1),
        record {
          synced = mirrored sealed'.1 read'.0 read'.2;
          knows = link.knows;
          knows_key = link.knows_key;
          known = link.known;
          known_key = link.known_key;
          running = (refl, refl);
          running' = (refl, refl);
          idle = told.2;
          idle' = q2.3;
        },
        refl,
        refl,
      )
