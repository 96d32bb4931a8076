-- ===== src/Directory/Client/Simulation.antt =====
-- A client sees of a connection only the one call that an operation makes.
use thicket_ai.Base.{
  ◌≡◌, refl, ap, inl, inr, String, ⊤, Result, ok, err, Bytes, Result-cases, map_ok,
}
use thicket_ai.Interconnect.Data.{EnvelopePayload}
use thicket_ai.Interconnect.Envelope.{request, with_body}
use thicket_ai.Directory.{register_cap, resolve_cap, search_cap, renew_cap, deregister_cap}
use thicket_ai.Directory.Client
use thicket_ai.Directory.Client.{Caller, ClientCodec, DirectoryClient, found_or_none, decoded}
use thicket_ai.Directory.Client.Promise.{
  Operation, registers, resolves, searches, renews, deregisters, done, found, ranked, expires,
  performed,
}

module _ (c : ClientCodec) (d : DirectoryClient) (fresh : Bytes) where
  -- the payload of a call
  abbrev pub asking : String → Bytes → EnvelopePayload
  asking capability body = with_body (request fresh d.local_id d.directory_id capability) body

  -- The capability and the body that an operation calls with.
  abbrev pub Asks : Operation → String → Bytes → Type 0
  Asks (registers r) capability body = (capability ≡ register_cap) × (c.write_record r ≡ ok body)
  Asks (resolves id) capability body = (capability ≡ resolve_cap) × (c.write_id id ≡ ok body)
  Asks (searches need) capability body = (capability ≡ search_cap) × (c.write_need need ≡ ok body)
  Asks (renews ttl) capability body =
      (capability ≡ renew_cap) × (c.write_renew (record { id = d.local_id; ttl = ttl }) ≡ ok body)
  Asks deregisters capability body =
      (capability ≡ deregister_cap) × (c.write_id d.local_id ≡ ok body)

  module _ (conn conn' : Caller) (R : conn.State → conn'.State → Type 0) (s : conn.State)
      (s' : conn'.State) where
    -- The two connections give the same answer to a payload, and stay related.
    abbrev pub Same : EnvelopePayload → Type 0
    Same p = ((conn.call s p).0 ≡ (conn'.call s' p).0) × R (conn.call s p).1 (conn'.call s' p).1

    abbrev Agree :
        {A : Type 0}
        → Result Client.Error A × conn.State
        → Result Client.Error A × conn'.State
        → Type 0
    Agree x y = (x.0 ≡ y.0) × R x.1 y.1

    call_agrees :
        (capability : String) (body : Bytes)
        → Same (asking capability body)
        → Agree
            (Client.call conn c d fresh capability body s)
            (Client.call conn' c d fresh capability body s')
    unfolding Client.call
    call_agrees capability body h = (
      ap
          (λ a. elim a [
            | err e ↦ err (Client.net e)
            | ok resp ↦ Client.reply_body resp.payload.typ resp
          ])
          h.0,
      h.1,
    )

    -- An operation has the same outcome over two connections that answer its call alike, and leaves
    -- them related.
    pub performed_agrees :
        (op : Operation)
        → R s s'
        → ((capability : String) (body : Bytes)
            → Asks op capability body
            → Same (asking capability body))
        → ((performed conn c d fresh op s).0 ≡ (performed conn' c d fresh op s').0)
          × R (performed conn c d fresh op s).1 (performed conn' c d fresh op s').1
    unfolding performed Client.register Client.resolve Client.search Client.renew Client.deregister
    performed_agrees (registers r) now_related h = elim (Result-cases (c.write_record r)) [
      | inl (e, bad) ↦ rw (performed, Client.register, bad) (refl, now_related)
      | inr (body, good) ↦
          let x = call_agrees register_cap body (h register_cap body (refl, good)) in
          rw (performed, Client.register, good)
            (
              ap
                  (λ (a : Result Client.Error Bytes).
                    map_ok (λ _. done) (map_ok {B = ⊤} (λ _. tt) a))
                  x.0,
              x.1,
            )
    ]
    performed_agrees (resolves id) now_related h = elim (Result-cases (c.write_id id)) [
      | inl (e, bad) ↦ rw (performed, Client.resolve, bad) (refl, now_related)
      | inr (body, good) ↦
          let x = call_agrees resolve_cap body (h resolve_cap body (refl, good)) in
          rw (performed, Client.resolve, good)
            (ap (λ a. map_ok found (found_or_none c.read_record a)) x.0, x.1)
    ]
    performed_agrees (searches need) now_related h = elim (Result-cases (c.write_need need)) [
      | inl (e, bad) ↦ rw (performed, Client.search, bad) (refl, now_related)
      | inr (body, good) ↦
          let x = call_agrees search_cap body (h search_cap body (refl, good)) in
          rw (performed, Client.search, good)
            (ap (λ a. map_ok ranked (decoded c.read_records a)) x.0, x.1)
    ]
    performed_agrees (renews ttl) now_related h =
        elim (Result-cases (c.write_renew (record { id = d.local_id; ttl = ttl }))) [
          | inl (e, bad) ↦ rw (performed, Client.renew, bad) (refl, now_related)
          | inr (body, good) ↦
              let x = call_agrees renew_cap body (h renew_cap body (refl, good)) in
              rw (performed, Client.renew, good)
                (ap (λ a. map_ok expires (decoded c.read_expiry a)) x.0, x.1)
        ]
    performed_agrees deregisters now_related h = elim (Result-cases (c.write_id d.local_id)) [
      | inl (e, bad) ↦ rw (performed, Client.deregister, bad) (refl, now_related)
      | inr (body, good) ↦
          let x = call_agrees deregister_cap body (h deregister_cap body (refl, good)) in
          rw (performed, Client.deregister, good)
            (
              ap
                  (λ (a : Result Client.Error Bytes).
                    map_ok (λ _. done) (map_ok {B = ⊤} (λ _. tt) a))
                  x.0,
              x.1,
            )
    ]
