-- ===== src/Directory/Gate.antt =====
-- What a request may change: only the entry of the identity that the channel authenticated.
use thicket_ai.Base.{
  ℕ, ◌≡◌, ◌≢◌, refl, ap, sym, ◌∙◌, ok, arith, Bool-cases, Result-cases, Option-cases, inl, inr,
  ◌==◌, String_eq,
}
use thicket_ai.Base.Float.{Float}
use thicket_ai.Base.Dict
use thicket_ai.Base.Dict.{get-insert_ne, get-remove_ne}
use thicket_ai.Core.{Kernel, ResourceId, ResourceId_eq, id_eq_iff, SignedRecord}
use thicket_ai.Net.Server.{Request}
use thicket_ai.Registry
use thicket_ai.Registry.{Embedder, Registry, id_of}
use thicket_ai.Registry.Publishing.{register_sound}
use thicket_ai.Registry.Leases.{renew_sound, deregister_exact}
use thicket_ai.Directory.{
  Wire, register_cap, resolve_cap, search_cap, renew_cap, deregister_cap, handle_register,
  handle_resolve, handle_search, handle_renew, handle_deregister, handle,
}

module _ (w : Wire) (k : Kernel) {fl : Float} (embedder : Embedder fl) where
  -- One operation of the registry, on the entry of `peer`, or none at all.
  pub data Gated (peer : ResourceId) (now : ℕ) (reg : Registry fl) : Registry fl → Type 0 where
    unchanged : Gated peer now reg reg
    registered :
        {reg' : Registry fl} (r : SignedRecord)
        → id_of r ≡ peer
        → Registry.register k embedder reg r now ≡ ok reg'
        → Gated peer now reg reg'
    renewed :
        {reg' : Registry fl} (ttl expiry : ℕ)
        → Registry.renew k embedder reg peer now ttl ≡ ok (expiry, reg')
        → Gated peer now reg reg'
    withdrawn : Gated peer now reg (Registry.deregister k embedder reg peer).1

  register-Gated :
      (reg : Registry fl) (req : Request) (now : ℕ)
      → Gated req.peer.id now reg (handle_register w k embedder reg req now).1
  unfolding handle_register
  register-Gated reg req now = elim (Result-cases (w.read_record req.body)) [
    | inl (e, bad) ↦ rw (bad, handle_register) unchanged
    | inr (r, read) ↦ elim (Bool-cases (id_of r == req.peer.id)) [
      | inr other ↦ rw (read, other, handle_register) unchanged
      | inl own ↦ elim (Result-cases (Registry.register k embedder reg r now)) [
        | inl (e, failed) ↦ rw (read, own, failed, handle_register) unchanged
        | inr (reg', done) ↦
            rw (read, own, done, handle_register)
              (registered r ((id_eq_iff (id_of r) req.peer.id).0 own) done)
      ]
    ]
  ]

  renew-Gated :
      (reg : Registry fl) (req : Request) (now : ℕ)
      → Gated req.peer.id now reg (handle_renew w k embedder reg req now).1
  unfolding handle_renew
  renew-Gated reg req now = elim (Result-cases (w.read_renew req.body)) [
    | inl (e, bad) ↦ rw (bad, handle_renew) unchanged
    | inr (args, read) ↦ elim (Bool-cases (args.id == req.peer.id)) [
      | inr other ↦ rw (read, other, handle_renew) unchanged
      | inl own ↦ elim (Result-cases (Registry.renew k embedder reg args.id now args.ttl)) [
        | inl (e, failed) ↦ rw (read, own, failed, handle_renew) unchanged
        | inr ((expiry, reg'), done) ↦
            let same : args.id ≡ req.peer.id = (id_eq_iff args.id req.peer.id).0 own in
            rw (read, own, done, handle_renew)
              (renewed args.ttl expiry
                (ap (λ i. Registry.renew k embedder reg i now args.ttl) (sym same) ∙ done))
      ]
    ]
  ]

  deregister-Gated :
      (reg : Registry fl) (req : Request) (now : ℕ)
      → Gated req.peer.id now reg (handle_deregister w k embedder reg req now).1
  unfolding handle_deregister
  deregister-Gated reg req now = elim (Result-cases (w.read_id req.body)) [
    | inl (e, bad) ↦ rw (bad, handle_deregister) unchanged
    | inr (id, read) ↦ elim (Bool-cases (id == req.peer.id)) [
      | inr other ↦ rw (read, other, handle_deregister) unchanged
      | inl own ↦ rw (read, own, handle_deregister, (id_eq_iff id req.peer.id).0 own) withdrawn
    ]
  ]

  resolve_same :
      (reg : Registry fl) (req : Request) (now : ℕ)
      → (handle_resolve w k embedder reg req now).1 ≡ reg
  unfolding handle_resolve
  resolve_same reg req now = elim (Result-cases (w.read_id req.body)) [
    | inl (e, bad) ↦ rw (bad, handle_resolve) refl
    | inr (id, read) ↦ elim (Result-cases (Registry.resolve k embedder reg id now)) [
      | inl (e, failed) ↦ rw (read, failed, handle_resolve) refl
      | inr (r, done) ↦ rw (read, done, handle_resolve) refl
    ]
  ]

  search_same :
      (reg : Registry fl) (req : Request) (now : ℕ)
      → (handle_search w k embedder reg req now).1 ≡ reg
  unfolding handle_search
  search_same reg req now = elim (Result-cases (w.read_need req.body)) [
    | inl (e, bad) ↦ rw (bad, handle_search) refl
    | inr (need, read) ↦ rw (read, handle_search) refl
  ]

  -- Whatever a request asks for, the directory's registry is left as it is or becomes what one of
  -- three operations makes of it: it registers a record of the identity that the connection
  -- authenticated, or renews or withdraws the entry of that identity.
  pub handle-Gated :
      (reg : Registry fl) (req : Request) (now : ℕ)
      → Gated req.peer.id now reg (handle w k embedder reg req now).1
  unfolding handle
  handle-Gated reg req now = elim (Bool-cases (req.capability == register_cap)) [
    | inl a ↦ rw a (register-Gated reg req now)
    | inr a ↦ elim (Bool-cases (req.capability == resolve_cap)) [
      | inl b ↦ rw (a, b, resolve_same reg req now) unchanged
      | inr b ↦ elim (Bool-cases (req.capability == search_cap)) [
        | inl c ↦ rw (a, b, c, search_same reg req now) unchanged
        | inr c ↦ elim (Bool-cases (req.capability == renew_cap)) [
          | inl d ↦ rw (a, b, c, d) (renew-Gated reg req now)
          | inr d ↦ elim (Bool-cases (req.capability == deregister_cap)) [
            | inl e ↦ rw (a, b, c, d, e) (deregister-Gated reg req now)
            | inr e ↦ rw (a, b, c, d, e) unchanged
          ]
        ]
      ]
    ]
  ]

  renew_other :
      (peer : ResourceId) (now ttl expiry : ℕ) (reg reg' : Registry fl) (id : ResourceId)
      → Registry.renew k embedder reg peer now ttl ≡ ok (expiry, reg')
      → id ≢ peer
      → (Dict.get id reg'.store ≡ Dict.get id reg.store) × (reg'.revocations ≡ reg.revocations)
  unfolding Registry.renew
  renew_other peer now ttl expiry reg reg' id h ne = elim (Option-cases (Dict.get peer reg.store)) [
    | inl absent ↦ absurd (ground arith)
    | inr (s, found) ↦ elim (Option-cases s.entry.payload.lease) [
      | inl leaseless ↦ absurd (ground arith)
      | inr (old, leased) ↦
          let r = renew_sound k embedder reg peer now ttl s old found leased in
          let same : r.0 ≡ reg' = ground (arith, r.1) in (rw (← same) (r.3 id ne), rw (← same) r.4)
    ]
  ]

  Gated-other :
      (peer : ResourceId) (now : ℕ) (reg reg' : Registry fl) (id : ResourceId)
      → Gated peer now reg reg'
      → id ≢ peer
      → (Dict.get id reg'.store ≡ Dict.get id reg.store) × (reg'.revocations ≡ reg.revocations)
  Gated-other peer now reg reg' id unchanged ne = (refl, refl)
  Gated-other peer now reg reg' id (registered r own h) ne =
      let s = register_sound k embedder reg r now reg' h in (s.3 id (λ q. ne (q ∙ own)), s.4)
  Gated-other peer now reg reg' id (renewed ttl expiry h) ne =
      renew_other peer now ttl expiry reg reg' id h ne
  Gated-other peer now reg reg' id withdrawn ne =
      let s = deregister_exact k embedder reg peer in (s.2 id ne, s.3)

  -- A request changes no entry but that of the identity it was authenticated as, and no revocation,
  -- whatever its capability and its body are.
  pub handle_other :
      (reg : Registry fl) (req : Request) (now : ℕ) (id : ResourceId)
      → id ≢ req.peer.id
      → (Dict.get id (handle w k embedder reg req now).1.store ≡ Dict.get id reg.store)
        × ((handle w k embedder reg req now).1.revocations ≡ reg.revocations)
  handle_other reg req now id ne =
      Gated-other req.peer.id now reg _ id (handle-Gated reg req now) ne
