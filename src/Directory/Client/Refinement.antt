-- ===== src/Directory/Client/Refinement.antt =====
-- The typed client against the registry that it stands for.
use thicket_ai.Base.{
  ℕ, ◌≡◌, refl, ap, ◌∙◌, inl, inr, String, ⊤, Result, ok, Bytes, ◌==◌, String_eq, Result-cases,
  Bool-cases, map_ok,
}
use mathlib.Core.Path.{subst}
use thicket_ai.Base.Float.{Float}
use thicket_ai.Core.{Kernel, ResourceId, ResourceId_eq, id_eq_iff, SignedRecord}
use thicket_ai.Interconnect.{Fabric}
use thicket_ai.Net.{VerifiedPeer}
use thicket_ai.Net.Server.{Request, Reply}
use thicket_ai.Registry
use thicket_ai.Registry.{Need, Embedder, Registry, id_of}
use thicket_ai.Directory.{
  Wire, register_cap, resolve_cap, search_cap, renew_cap, deregister_cap, encode_reply,
  handle_register, handle_resolve, handle_search, handle_renew, handle_deregister, handle,
}
use thicket_ai.Directory.Client
use thicket_ai.Directory.Client.{
  Caller, ClientCodec, DirectoryClient, remote, found_or_none, decoded,
}
use thicket_ai.Directory.Client.Service.{of_reply, Ends, Signs, served, call_served}
use thicket_ai.Directory.Client.Promise.{
  RoundTrips, Returned, Operation, registers, resolves, searches, renews, deregisters, Outcome,
  done, found, ranked, expires, promised, Carried, performed,
}

-- a reply whose body the client does not read
abbrev finished : Result Client.Error Bytes → Result Client.Error Outcome
finished a = map_ok {A = ⊤} (λ _. done) (map_ok {B = ⊤} (λ _. tt) a)

module _ (f : Fabric) (w : Wire) (k : Kernel) {fl : Float} (embedder : Embedder fl) (ends : Ends)
    (now : ℕ) (c : ClientCodec) (d : DirectoryClient) (fresh : Bytes)
    (signs : Signs f w k embedder ends now) where
  handle-register_cap :
      (reg : Registry fl) (req : Request)
      → req.capability ≡ register_cap
      → handle w k embedder reg req now ≡ handle_register w k embedder reg req now
  unfolding handle
  handle-register_cap reg req h = rw (h, handle) refl

  handle-resolve_cap :
      (reg : Registry fl) (req : Request)
      → req.capability ≡ resolve_cap
      → handle w k embedder reg req now ≡ handle_resolve w k embedder reg req now
  unfolding handle
  handle-resolve_cap reg req h = rw (h, handle) refl

  handle-search_cap :
      (reg : Registry fl) (req : Request)
      → req.capability ≡ search_cap
      → handle w k embedder reg req now ≡ handle_search w k embedder reg req now
  unfolding handle
  handle-search_cap reg req h = rw (h, handle) refl

  handle-renew_cap :
      (reg : Registry fl) (req : Request)
      → req.capability ≡ renew_cap
      → handle w k embedder reg req now ≡ handle_renew w k embedder reg req now
  unfolding handle
  handle-renew_cap reg req h = rw (h, handle) refl

  handle-deregister_cap :
      (reg : Registry fl) (req : Request)
      → req.capability ≡ deregister_cap
      → handle w k embedder reg req now ≡ handle_deregister w k embedder reg req now
  unfolding handle
  handle-deregister_cap reg req h = rw (h, handle) refl

  -- a call, by what the server does for its capability and what the client makes of the reply
  called :
      (capability : String) (body : Bytes) (reg : Registry fl)
      (handled : Registry fl → Request → ℕ → Reply × Registry fl)
      (post : Result Client.Error Bytes → Result Client.Error Outcome)
      → ((req : Request)
          → req.capability ≡ capability
          → handle w k embedder reg req now ≡ handled reg req now)
      → (req : Request) × (req.body ≡ body)
        × (req.peer.id ≡ ends.peer.id)
        × ◌≡◌ {A = Result Client.Error Outcome × Registry fl}
            (
              post (Client.call (served f w k embedder ends now) c d fresh capability body reg).0,
              (Client.call (served f w k embedder ends now) c d fresh capability body reg).1,
            )
            (post (of_reply (handled reg req now).0), (handled reg req now).1)
  called capability body reg handled post arm =
      let x = call_served f w k embedder ends now c d fresh signs capability body reg in
      (
        x.0,
        x.2,
        ap (λ (p : VerifiedPeer). p.id) x.3,
        ap (λ (a : Result Client.Error Bytes × Registry fl). (post a.0, a.1)) x.4
            ∙ ap (λ (h : Reply × Registry fl). (post (of_reply h.0), h.1)) (arm x.0 x.1),
      )

  register_kept :
      (r : SignedRecord) (reg : Registry fl) (req : Request)
      → w.read_record req.body ≡ ok r
      → req.peer.id ≡ ends.peer.id
      → ◌≡◌ {A = Result Client.Error Outcome × Registry fl}
          (
            finished (of_reply (handle_register w k embedder reg req now).0),
            (handle_register w k embedder reg req now).1,
          )
          (promised w k embedder now ends.peer.id (registers r) reg)
  unfolding handle_register promised
  register_kept r reg req read same = elim (Bool-cases (id_of r == ends.peer.id)) [
    | inr other ↦ rw (handle_register, read, same, promised, other) refl
    | inl own ↦ elim (Result-cases (Registry.register k embedder reg r now)) [
      | inl (e, failed) ↦ rw (handle_register, read, same, promised, own, failed) refl
      | inr (reg', did) ↦ rw (handle_register, read, same, promised, own, did) refl
    ]
  ]

  register_refines :
      (r : SignedRecord) (reg : Registry fl)
      → Carried w c k embedder now ends.peer.id (registers r) reg
      → performed (served f w k embedder ends now) c d fresh (registers r) reg
        ≡ promised w k embedder now ends.peer.id (registers r) reg
  unfolding performed Client.register
  register_refines r reg b =
      let x =
        called register_cap b.0 reg (handle_register w k embedder) finished
          (handle-register_cap reg) in
      rw (performed, b.1, Client.register) (x.3 ∙ register_kept r reg x.0 (rw x.1 b.2) x.2)

  resolve_kept :
      (id : ResourceId) (reg : Registry fl) (req : Request)
      → w.read_id req.body ≡ ok id
      → Returned (λ r. r) w.write_record c.read_record (Registry.resolve k embedder reg id now)
      → ◌≡◌ {A = Result Client.Error Outcome × Registry fl}
          (
            map_ok found (
                found_or_none c.read_record (of_reply (handle_resolve w k embedder reg req now).0)),
            (handle_resolve w k embedder reg req now).1,
          )
          (promised w k embedder now ends.peer.id (resolves id) reg)
  unfolding handle_resolve promised encode_reply
  resolve_kept id reg req read back = elim (Result-cases (Registry.resolve k embedder reg id now)) [
    | inl (e, failed) ↦ rw (handle_resolve, read, promised, failed) refl
    | inr (r, got) ↦
        let b : RoundTrips w.write_record c.read_record r =
          subst (Returned (λ x. x) w.write_record c.read_record) got back in
        rw (handle_resolve, read, promised, got, b.1, b.2) refl
  ]

  resolve_refines :
      (id : ResourceId) (reg : Registry fl)
      → Carried w c k embedder now ends.peer.id (resolves id) reg
      → performed (served f w k embedder ends now) c d fresh (resolves id) reg
        ≡ promised w k embedder now ends.peer.id (resolves id) reg
  unfolding performed Client.resolve
  resolve_refines id reg (b, back) =
      let x =
        called resolve_cap b.0 reg (handle_resolve w k embedder)
          (λ a. map_ok found (found_or_none c.read_record a)) (handle-resolve_cap reg) in
      rw (performed, b.1, Client.resolve) (x.3 ∙ resolve_kept id reg x.0 (rw x.1 b.2) back)

  search_kept :
      (need : Need) (reg : Registry fl) (req : Request)
      → w.read_need req.body ≡ ok need
      → RoundTrips w.write_records c.read_records (Registry.search k embedder reg need now)
      → ◌≡◌ {A = Result Client.Error Outcome × Registry fl}
          (
            map_ok ranked
                (decoded c.read_records (of_reply (handle_search w k embedder reg req now).0)),
            (handle_search w k embedder reg req now).1,
          )
          (promised w k embedder now ends.peer.id (searches need) reg)
  unfolding handle_search promised encode_reply
  search_kept need reg req read b = rw (handle_search, read, b.1, b.2) refl

  search_refines :
      (need : Need) (reg : Registry fl)
      → Carried w c k embedder now ends.peer.id (searches need) reg
      → performed (served f w k embedder ends now) c d fresh (searches need) reg
        ≡ promised w k embedder now ends.peer.id (searches need) reg
  unfolding performed Client.search
  search_refines need reg (b, back) =
      let x =
        called search_cap b.0 reg (handle_search w k embedder)
          (λ a. map_ok ranked (decoded c.read_records a)) (handle-search_cap reg) in
      rw (performed, b.1, Client.search) (x.3 ∙ search_kept need reg x.0 (rw x.1 b.2) back)

  module _ (own : d.local_id ≡ ends.peer.id) where
    renew_kept :
        (ttl : ℕ) (reg : Registry fl) (req : Request)
        → w.read_renew req.body ≡ ok (record { id = ends.peer.id; ttl = ttl })
        → req.peer.id ≡ ends.peer.id
        → Returned
            (λ x. x.0)
            w.write_expiry
            c.read_expiry
            (Registry.renew k embedder reg ends.peer.id now ttl)
        → ◌≡◌ {A = Result Client.Error Outcome × Registry fl}
            (
              map_ok expires
                  (decoded c.read_expiry (of_reply (handle_renew w k embedder reg req now).0)),
              (handle_renew w k embedder reg req now).1,
            )
            (promised w k embedder now ends.peer.id (renews ttl) reg)
    unfolding handle_renew promised encode_reply
    renew_kept ttl reg req read same back =
        let id = (id_eq_iff ends.peer.id ends.peer.id).1 refl in
        elim (Result-cases (Registry.renew k embedder reg ends.peer.id now ttl)) [
          | inl (e, failed) ↦ rw (handle_renew, read, same, id, promised, failed) refl
          | inr ((expiry, reg'), did) ↦
              let b : RoundTrips w.write_expiry c.read_expiry expiry =
                subst (Returned (λ x. x.0) w.write_expiry c.read_expiry) did back in
              rw (handle_renew, read, same, id, promised, did, b.1, b.2) refl
        ]

    renew_refines :
        (ttl : ℕ) (reg : Registry fl)
        → Carried w c k embedder now ends.peer.id (renews ttl) reg
        → performed (served f w k embedder ends now) c d fresh (renews ttl) reg
          ≡ promised w k embedder now ends.peer.id (renews ttl) reg
    unfolding performed Client.renew
    renew_refines ttl reg (b, back) =
        let x =
          called renew_cap b.0 reg (handle_renew w k embedder)
            (λ a. map_ok expires (decoded c.read_expiry a)) (handle-renew_cap reg) in
        rw (performed, own, b.1, Client.renew) (x.3 ∙ renew_kept ttl reg x.0 (rw x.1 b.2) x.2 back)

    deregister_kept :
        (reg : Registry fl) (req : Request)
        → w.read_id req.body ≡ ok ends.peer.id
        → req.peer.id ≡ ends.peer.id
        → ◌≡◌ {A = Result Client.Error Outcome × Registry fl}
            (
              finished (of_reply (handle_deregister w k embedder reg req now).0),
              (handle_deregister w k embedder reg req now).1,
            )
            (promised w k embedder now ends.peer.id deregisters reg)
    unfolding handle_deregister promised
    deregister_kept reg req read same =
        let id = (id_eq_iff ends.peer.id ends.peer.id).1 refl in
        rw (handle_deregister, read, same, id) refl

    deregister_refines :
        (reg : Registry fl)
        → Carried w c k embedder now ends.peer.id deregisters reg
        → performed (served f w k embedder ends now) c d fresh deregisters reg
          ≡ promised w k embedder now ends.peer.id deregisters reg
    unfolding performed Client.deregister
    deregister_refines reg b =
        let x =
          called deregister_cap b.0 reg (handle_deregister w k embedder) finished
            (handle-deregister_cap reg) in
        rw (performed, own, b.1, Client.deregister) (x.3 ∙ deregister_kept reg x.0 (rw x.1 b.2) x.2)

    -- The client of a directory does what the directory promises: where calls and replies arrive,
    -- every operation of the client gives the result, and leaves the directory's registry in the
    -- state, of the operation on the registry itself, restricted to the client's own record. An
    -- error of the registry comes back as its text, and a record that does not resolve as none. The
    -- values that the operation sends and receives are written and read back by the codec, signing
    -- does not fail, and the client's id is the one that the directory authenticated.
    pub performed-promised :
        (op : Operation) (reg : Registry fl)
        → Carried w c k embedder now ends.peer.id op reg
        → performed (served f w k embedder ends now) c d fresh op reg
          ≡ promised w k embedder now ends.peer.id op reg
    performed-promised (registers r) reg b = register_refines r reg b
    performed-promised (resolves id) reg b = resolve_refines id reg b
    performed-promised (searches need) reg b = search_refines need reg b
    performed-promised (renews ttl) reg b = renew_refines ttl reg b
    performed-promised deregisters reg b = deregister_refines reg b
