-- ===== src/Net/Routing/Delivery.antt =====
-- Where an incoming envelope goes.
use thicket_ai.Base.{
  ◌≡◌, ◌≢◌, ◌⊎◌, inl, inr, refl, ap, sym, ◌∙◌, Bool, true, false, not, ◌&&◌, if◌then◌else◌, none,
  some, Bytes, List, [], ◌∷◌, String_eq, List_eq, ℕ_eq, arith, Option-cases, Bool-cases,
}
use thicket_ai.Base.Dict
use thicket_ai.Base.Dict.{get-remove_self, get-remove_ne, get-remove-missing}
use thicket_ai.Interconnect.Data.{EnvelopeType, SignedEnvelope}
use thicket_ai.Net.Server.{or_empty}
use thicket_ai.Net.Routing.{
  Channels, Tables, offer, route_response, end_stream, drop_stream, route_chunk, route_event,
  route_as, route,
}

-- The envelopes that the reader has accepted, in order.
abbrev pub route_all : (ch : Channels) → List SignedEnvelope → Tables ch → Tables ch
route_all ch [] t = t
route_all ch (env ∷ envs) t = route_all ch envs (route ch env t)

-- A response or an error: what completes a call.
abbrev pub completes : EnvelopeType → Bool
completes EnvelopeType.response = true
completes EnvelopeType.error = true
completes EnvelopeType.request = false
completes EnvelopeType.event = false
completes EnvelopeType.stream_chunk = false
completes EnvelopeType.cancel = false

module _ (ch : Channels) where
  route_chunk_keeps :
      (env : SignedEnvelope) (t : Tables ch) → (route_chunk ch env t).pending ≡ t.pending
  unfolding route_chunk end_stream drop_stream offer
  route_chunk_keeps env t = elim (Option-cases (Dict.get env.payload.correlation t.streams)) [
    | inl e ↦ ground arith
    | inr (tx, e) ↦ ground arith
  ]

  route_event_keeps :
      (env : SignedEnvelope) (t : Tables ch) → (route_event ch env t).pending ≡ t.pending
  unfolding route_event offer
  route_event_keeps env t =
      elim (Option-cases (Dict.get (or_empty env.payload.capability) t.event_subs)) [
        | inl e ↦ ground arith
        | inr (tx, e) ↦ ground arith
      ]

  route_response_removes :
      (env : SignedEnvelope) (t : Tables ch)
      → (route_response ch env t).pending ≡ Dict.remove env.payload.correlation t.pending
  unfolding route_response
  route_response_removes env t = elim (Option-cases (Dict.get env.payload.correlation t.pending)) [
    | inl e ↦ ground arith
    | inr (tx, e) ↦ ground arith
  ]

  -- what routing does to the calls that wait
  route_pending :
      (typ : EnvelopeType) (env : SignedEnvelope) (t : Tables ch)
      → ((completes typ ≡ false) × ((route_as ch typ env t).pending ≡ t.pending))
        ⊎ ((completes typ ≡ true)
            × ((route_as ch typ env t).pending ≡ Dict.remove env.payload.correlation t.pending))
  unfolding route_as offer
  route_pending EnvelopeType.response env t = inr (refl, route_response_removes env t)
  route_pending EnvelopeType.error env t = inr (refl, route_response_removes env t)
  route_pending EnvelopeType.stream_chunk env t = inl (refl, route_chunk_keeps env t)
  route_pending EnvelopeType.event env t = inl (refl, route_event_keeps env t)
  route_pending EnvelopeType.request env t = inl (refl, refl)
  route_pending EnvelopeType.cancel env t = inl (refl, refl)

  -- Any envelope but the answer to a call leaves the call waiting.
  pub route_keeps :
      (env : SignedEnvelope) (t : Tables ch) (c : Bytes)
      → (completes env.payload.typ ≡ false) ⊎ (env.payload.correlation ≢ c)
      → Dict.get c (route ch env t).pending ≡ Dict.get c t.pending
  unfolding route
  route_keeps env t c h = elim (route_pending env.payload.typ env t) [
    | inl (kept, same) ↦ ap (Dict.get c) same
    | inr (done, gone) ↦ elim h [
      | inl other ↦ absurd (ground arith)
      | inr ne ↦
          ap (Dict.get c) gone ∙ get-remove_ne env.payload.correlation c t.pending (λ q. ne (sym q))
    ]
  ]

  route_as_answer :
      (typ : EnvelopeType) (env : SignedEnvelope) (t : Tables ch)
      → completes typ ≡ true
      → route_as ch typ env t ≡ route_response ch env t
  unfolding route_as
  route_as_answer EnvelopeType.response env t h = refl
  route_as_answer EnvelopeType.error env t h = refl
  route_as_answer EnvelopeType.stream_chunk env t h = absurd (ground arith)
  route_as_answer EnvelopeType.event env t h = absurd (ground arith)
  route_as_answer EnvelopeType.request env t h = absurd (ground arith)
  route_as_answer EnvelopeType.cancel env t h = absurd (ground arith)

  route_hit :
      (env : SignedEnvelope) (t : Tables ch) (tx : ch.Oneshot)
      → Dict.get env.payload.correlation t.pending ≡ some tx
      → (route_response ch env t).world ≡ ch.send_once t.world tx env
  unfolding route_response
  route_hit env t tx h = ground arith

  route_miss :
      (env : SignedEnvelope) (t : Tables ch)
      → Dict.get env.payload.correlation t.pending ≡ none
      → ((route_response ch env t).world ≡ t.world)
        × ((route_response ch env t).streams ≡ t.streams)
        × ((route_response ch env t).event_subs ≡ t.event_subs)
  unfolding route_response
  route_miss env t h = (ground arith, ground arith, ground arith)

  -- The answer to a call that waits goes to the channel of the call, and the call waits no more.
  pub route_answers :
      (env : SignedEnvelope) (t : Tables ch) (c : Bytes) (tx : ch.Oneshot)
      → Dict.get c t.pending ≡ some tx
      → completes env.payload.typ ≡ true
      → env.payload.correlation ≡ c
      → ((route ch env t).world ≡ ch.send_once t.world tx env)
        × (Dict.get c (route ch env t).pending ≡ none)
  unfolding route
  route_answers env t c tx waits done same =
      let now : Dict.get env.payload.correlation t.pending ≡ some tx = rw same waits in
      let arm = route_as_answer env.payload.typ env t done in
      (
        rw arm (route_hit env t tx now),
        rw (arm, route_response_removes env t, same) (get-remove_self c t.pending),
      )

  -- An answer is delivered at most once: a response or error whose correlation no call waits for
  -- reaches no channel, and leaves every call, stream and subscription as it is.
  pub route_late :
      (env : SignedEnvelope) (t : Tables ch) (c : Bytes)
      → completes env.payload.typ ≡ true
      → Dict.get env.payload.correlation t.pending ≡ none
      → ((route ch env t).world ≡ t.world)
        × ((route ch env t).streams ≡ t.streams)
        × ((route ch env t).event_subs ≡ t.event_subs)
        × (Dict.get c (route ch env t).pending ≡ Dict.get c t.pending)
  unfolding route
  route_late env t c done none_waits =
      let arm = route_as_answer env.payload.typ env t done in
      let m = route_miss env t none_waits in
      (
        rw arm m.0,
        rw arm m.1,
        rw arm m.2,
        rw (arm, route_response_removes env t)
            (get-remove-missing env.payload.correlation c t.pending none_waits),
      )

  route_as_chunk :
      (typ : EnvelopeType) (env : SignedEnvelope) (t : Tables ch)
      → typ ≡ EnvelopeType.stream_chunk
      → route_as ch typ env t ≡ route_chunk ch env t
  unfolding route_as
  route_as_chunk typ env t h = rw (h, route_as) refl

  route_chunk_streams :
      (env : SignedEnvelope) (t : Tables ch) (tx : ch.Sender)
      → Dict.get env.payload.correlation t.streams ≡ some tx
      → ((route_chunk ch env t).streams ≡ (
          if (ch.try_send t.world tx env).0 && not env.payload.stream_end
          then t.streams
          else Dict.remove env.payload.correlation t.streams))
        × ((route_chunk ch env t).world ≡ (ch.try_send t.world tx env).1)
  unfolding route_chunk end_stream drop_stream offer
  route_chunk_streams env t tx found = (ground arith, ground arith)

  -- A stream that gets a chunk stays open exactly when the chunk could be handed over and does not
  -- end it, and then for the same receiver; every other stream stays as it is, and so do the calls.
  pub route_chunk_exact :
      (env : SignedEnvelope) (t : Tables ch) (tx : ch.Sender) (other : Bytes)
      → env.payload.typ ≡ EnvelopeType.stream_chunk
      → Dict.get env.payload.correlation t.streams ≡ some tx
      → other ≢ env.payload.correlation
      → (Dict.get env.payload.correlation (route ch env t).streams ≡ (
          if (ch.try_send t.world tx env).0 && not env.payload.stream_end then some tx else none))
        × (Dict.get other (route ch env t).streams ≡ Dict.get other t.streams)
        × ((route ch env t).pending ≡ t.pending)
        × ((route ch env t).world ≡ (ch.try_send t.world tx env).1)
  unfolding route
  route_chunk_exact env t tx other chunk found ne =
      let gone = get-remove_self env.payload.correlation t.streams in
      let kept = get-remove_ne env.payload.correlation other t.streams ne in
      let e = route_chunk_streams env t tx found in
      rw (route_as_chunk env.payload.typ env t chunk, e.0, e.1, route_chunk_keeps env t)
        (elim (Bool-cases ((ch.try_send t.world tx env).0 && not env.payload.stream_end)) [
          | inl lasts ↦ rw lasts (found, refl, refl, refl)
          | inr ends ↦ rw ends (gone, kept, refl, refl)
        ])
