-- ===== src/Net/Conn/Calling.antt =====
-- Calls, while anything else goes on at the same connection.
use thicket_ai.Base.{
  ◌≡◌, ◌≢◌, ◌⊎◌, inl, inr, refl, ap, sym, ◌∙◌, String, true, false, none, some, List, [], ◌∷◌, ⊤,
  Result, ok, err, Bytes, List_eq, ℕ_eq, String_eq, arith, Result-cases,
}
use thicket_ai.Base.Dict
use thicket_ai.Base.Dict.{get-insert_self, get-insert_ne, get-remove_self, get-remove_ne}
use thicket_ai.Interconnect.Data
use thicket_ai.Interconnect.{Fabric}
use thicket_ai.Interconnect.Data.{EnvelopePayload, SignedEnvelope}
use thicket_ai.Interconnect.Envelope.{sign_envelope}
use thicket_ai.Net.{Error}
use thicket_ai.Net.Sealing.{Transport}
use thicket_ai.Net.Routing.{Channels, Tables, route}
use thicket_ai.Net.Routing.Delivery.{completes, route_keeps, route_answers, route_late}
use thicket_ai.Net.Conn.{
  Codec, Conn, Awaited, delivered, dropped, elapsed, enqueue, call, call_end, call_stream, send,
  subscribe,
}

-- What happens at a connection, in some order: the reader lets an envelope in, a call starts, the
-- wait of a call ends, a stream starts, an envelope is sent, a topic is subscribed to.
pub data Event : Type 0 where
  arrives : SignedEnvelope → Event
  starts : EnvelopePayload → Event
  finishes : Bytes → Awaited → Event
  opens : EnvelopePayload → Event
  sends : EnvelopePayload → Event
  subscribes : String → Event

-- An event that is not about the call with the correlation `c`.
abbrev pub Quiet : Bytes → Event → Type 0
Quiet c (arrives env) = (completes env.payload.typ ≡ false) ⊎ (env.payload.correlation ≢ c)
Quiet c (starts payload) = c ≢ payload.correlation
Quiet c (finishes correlation awaited) = c ≢ correlation
Quiet c (opens payload) = ⊤
Quiet c (sends payload) = ⊤
Quiet c (subscribes topic) = ⊤

abbrev pub AllQuiet : Bytes → List Event → Type 0
AllQuiet c [] = ⊤
AllQuiet c (e ∷ es) = Quiet c e × AllQuiet c es

module _ (f : Fabric) (t : Transport) (ch : Channels) (c : Codec) (conn : Conn f t ch c) where
  unfoldable pub step : Event → Tables ch → Tables ch
  step (arrives env) tables = route ch env tables
  step (starts payload) tables = (call f t ch c conn payload tables).1
  step (finishes correlation awaited) tables = (call_end f t ch c correlation awaited tables).1
  step (opens payload) tables = (call_stream f t ch c conn payload tables).1
  step (sends payload) tables = (send f t ch c conn payload tables).1
  step (subscribes topic) tables = (subscribe f t ch c topic tables).1

  unfoldable pub run : List Event → Tables ch → Tables ch
  unfolding step
  run [] tables = tables
  run (e ∷ es) tables = run es (step e tables)

  call_pending :
      (payload : EnvelopePayload) (tables : Tables ch)
      → (((call f t ch c conn payload tables).1 ≡ tables)
          × (e : Data.Error) × (sign_envelope f payload conn.working ≡ err e))
        ⊎ ((call f t ch c conn payload tables).1.pending
            ≡ Dict.insert payload.correlation (ch.once_channel tables.world).0.0 tables.pending)
  unfolding call
  call_pending payload tables = elim (Result-cases (sign_envelope f payload conn.working)) [
    | inl (e, failed) ↦ inl (ground arith, e, failed)
    | inr (signed, made) ↦ inr (rw (made, call) refl)
  ]

  step_keeps :
      (key : Bytes) (e : Event) (tables : Tables ch)
      → Quiet key e
      → Dict.get key (step e tables).pending ≡ Dict.get key tables.pending
  unfolding step call_end call_stream send subscribe
  step_keeps key (arrives env) tables q = route_keeps ch env tables key q
  step_keeps key (starts payload) tables q = elim (call_pending payload tables) [
    | inl (same, e, failed) ↦ ap (λ (x : Tables ch). Dict.get key x.pending) same
    | inr added ↦ ap (Dict.get key) added ∙ get-insert_ne payload.correlation key _ tables.pending q
  ]
  step_keeps key (finishes correlation (delivered env)) tables q = refl
  step_keeps key (finishes correlation dropped) tables q = refl
  step_keeps key (finishes correlation elapsed) tables q =
      get-remove_ne correlation key tables.pending q
  step_keeps key (opens payload) tables q =
      elim (Result-cases (sign_envelope f payload conn.working)) [
        | inl (e, failed) ↦ rw (failed, step, call_stream) refl
        | inr (signed, made) ↦ rw (made, step, call_stream) refl
      ]
  step_keeps key (sends payload) tables q =
      elim (Result-cases (sign_envelope f payload conn.working)) [
        | inl (e, failed) ↦ rw (failed, step, send) refl
        | inr (signed, made) ↦ rw (made, step, send) refl
      ]
  step_keeps key (subscribes topic) tables q = refl

  run_keeps :
      (key : Bytes) (es : List Event) (tables : Tables ch)
      → AllQuiet key es
      → Dict.get key (run es tables).pending ≡ Dict.get key tables.pending
  unfolding run
  run_keeps key [] tables q = refl
  run_keeps key (e ∷ es) tables q =
      run_keeps key es (step e tables) q.1 ∙ step_keeps key e tables q.0

  call_started :
      (payload : EnvelopePayload) (tables tables' : Tables ch) (rx : ch.OnceReceiver)
      → call f t ch c conn payload tables ≡ (ok rx, tables')
      → (rx ≡ (ch.once_channel tables.world).0.1)
        × (Dict.get payload.correlation tables'.pending ≡ some (ch.once_channel tables.world).0.0)
  unfolding call
  call_started payload tables tables' rx h =
      elim (Result-cases (sign_envelope f payload conn.working)) [
        | inl (e, failed) ↦ absurd (ground arith)
        | inr (signed, made) ↦
            let added =
              get-insert_self payload.correlation (ch.once_channel tables.world).0.0
                tables.pending in
            elim (Result-cases (enqueue f t ch c conn signed (ch.once_channel tables.world).1).0) [
              | inl (e, failed) ↦ absurd (ground arith)
              | inr (u, sent) ↦ (ground arith, ground arith)
            ]
      ]

  -- A call that has been sent is answered, whatever else goes on meanwhile: after any events that
  -- are not an answer to it, its own timeout or another call with its correlation, the response or
  -- error with its correlation goes into the channel that the call waits on, and the call is no
  -- longer in the table.
  pub call_answered :
      (payload : EnvelopePayload) (tables tables' : Tables ch) (rx : ch.OnceReceiver)
      (meanwhile : List Event) (env : SignedEnvelope)
      → call f t ch c conn payload tables ≡ (ok rx, tables')
      → AllQuiet payload.correlation meanwhile
      → completes env.payload.typ ≡ true
      → env.payload.correlation ≡ payload.correlation
      → (rx ≡ (ch.once_channel tables.world).0.1)
        × ((step (arrives env) (run meanwhile tables')).world
            ≡ ch.send_once (run meanwhile tables').world (ch.once_channel tables.world).0.0 env)
        × (Dict.get payload.correlation (step (arrives env) (run meanwhile tables')).pending ≡ none)
  unfolding step
  call_answered payload tables tables' rx meanwhile env h quiet done same =
      let s = call_started payload tables tables' rx h in
      let a =
        route_answers ch env (run meanwhile tables') payload.correlation _
          (run_keeps payload.correlation meanwhile tables' quiet ∙ s.1) done same in
      (s.0, a.0, a.1)

  -- A call that has timed out gets nothing any more: after its timeout and any events but another
  -- call with its correlation, an answer with its correlation reaches no channel.
  pub call_timed_out :
      (correlation : Bytes) (tables : Tables ch) (meanwhile : List Event) (env : SignedEnvelope)
      → AllQuiet correlation meanwhile
      → completes env.payload.typ ≡ true
      → env.payload.correlation ≡ correlation
      → (step (arrives env) (run meanwhile (step (finishes correlation elapsed) tables))).world
        ≡ (run meanwhile (step (finishes correlation elapsed) tables)).world
  unfolding step call_end
  call_timed_out correlation tables meanwhile env quiet done same =
      (route_late ch env _ correlation done (
        rw same
          (run_keeps correlation meanwhile _ quiet ∙ get-remove_self correlation tables.pending))).0

  -- A call that fails before it waits has left its entry in the table, unless it failed to sign,
  -- which changes nothing.
  pub call_failed :
      (payload : EnvelopePayload) (tables tables' : Tables ch) (e : Error)
      → call f t ch c conn payload tables ≡ (err e, tables')
      → ((tables' ≡ tables) × (x : Data.Error) × (sign_envelope f payload conn.working ≡ err x))
        ⊎ (Dict.get payload.correlation tables'.pending ≡ some (ch.once_channel tables.world).0.0)
  call_failed payload tables tables' e h = elim (call_pending payload tables) [
    | inl (same, x, failed) ↦
        inl (sym (ap (λ (p : Result Error ch.OnceReceiver × Tables ch). p.1) h) ∙ same, x, failed)
    | inr added ↦ inr (
        ap
          (λ (p : Result Error ch.OnceReceiver × Tables ch).
            Dict.get payload.correlation p.1.pending)
          (sym h)
        ∙ ap (Dict.get payload.correlation) added
        ∙ get-insert_self payload.correlation _ tables.pending)
  ]
