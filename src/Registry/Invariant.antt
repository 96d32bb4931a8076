-- ===== src/Registry/Invariant.antt =====
-- The registry's invariant, over any sequence of operations.
use thicket_ai.Base.{
  ℕ, ◌≡◌, inl, inr, refl, ap, sym, ◌∙◌, not, Option, none, some, ok, arith, Option-cases,
  Bool-cases, Has, Has-filter,
}
use thicket_ai.Base.Float.{Float}
use thicket_ai.Base.Dict
use thicket_ai.Base.Dict.{
  Unique, insert-Unique, remove-Unique, filter-Unique, Has-insert, Has-remove, get-Has,
}
use thicket_ai.Core.{Kernel, ResourceId, ResourceId_eq, SignedRecord, Revocation}
use thicket_ai.Core.Identity.{is_revoked, revoke_key}
use thicket_ai.Registry.{
  Embedder, id_of, Stored, Registry, new_registry, to_stored, register, drop_untrusted, revoke,
  renewed_lease, with_lease, renew, deregister, sweep_expired, lease_expired,
}

module _ {fl : Float} where
  -- Every id has one entry, and the entry of an id is a record of that id.
  pub record IsConsistent (reg : Registry fl) : Type 0 where
    pub unique : Unique reg.store
    pub keyed : (id : ResourceId) (s : Stored fl) → Has (id, s) reg.store → id_of s.entry ≡ id

  insert-IsConsistent :
      (reg : Registry fl) (id : ResourceId) (s : Stored fl)
      → id_of s.entry ≡ id
      → IsConsistent reg
      → IsConsistent (record reg { store = Dict.insert id s reg.store })
  insert-IsConsistent reg id s same c = record {
    unique = insert-Unique id s reg.store c.unique;
    keyed = λ j t m. elim (Has-insert id s reg.store (j, t) m) [
      | inl q ↦
          ap (λ (e : ResourceId × Stored fl). id_of e.1.entry) q
          ∙ same
          ∙ sym (ap (λ (e : ResourceId × Stored fl). e.0) q)
      | inr n ↦ c.keyed j t n
    ];
  }

  remove-IsConsistent :
      (reg : Registry fl) (id : ResourceId)
      → IsConsistent reg
      → IsConsistent (record reg { store = Dict.remove id reg.store })
  remove-IsConsistent reg id c = record {
    unique = remove-Unique id reg.store c.unique;
    keyed = λ j t m. c.keyed j t (Has-remove id reg.store (j, t) m);
  }

module _ (k : Kernel) {fl : Float} (embedder : Embedder fl) where
  -- One operation that changes the registry.
  pub data Step : Registry fl → Registry fl → Type 0 where
    registers :
        {reg reg' : Registry fl} (r : SignedRecord) (now : ℕ)
        → register k embedder reg r now ≡ ok reg'
        → Step reg reg'
    revokes :
        {reg reg' : Registry fl} (id : ResourceId) (rv : Revocation)
        → revoke k embedder reg id rv ≡ ok reg'
        → Step reg reg'
    renews :
        {reg reg' : Registry fl} (id : ResourceId) (now ttl expiry : ℕ)
        → renew k embedder reg id now ttl ≡ ok (expiry, reg')
        → Step reg reg'
    deregisters : {reg : Registry fl} (id : ResourceId) → Step reg (deregister k embedder reg id).1
    sweeps : {reg : Registry fl} (now : ℕ) → Step reg (sweep_expired k embedder reg now).1

  pub data Reach : Registry fl → Type 0 where
    start : Reach (new_registry fl)
    next : {reg reg' : Registry fl} → Reach reg → Step reg reg' → Reach reg'

  abbrev distrust : Registry fl → Revocation → Registry fl
  distrust reg rv = record reg { revocations = revoke_key reg.revocations rv.working_pub }

  drop_untrusted-IsConsistent :
      (reg : Registry fl) (id : ResourceId) (o : Option (Stored fl))
      → IsConsistent reg
      → IsConsistent (drop_untrusted k embedder reg id o)
  unfolding drop_untrusted
  drop_untrusted-IsConsistent reg id none c = c
  drop_untrusted-IsConsistent reg id (some s) c =
      elim (Bool-cases (is_revoked reg.revocations s.entry.signer_pub)) [
        | inl bad ↦ rw bad (remove-IsConsistent reg id c)
        | inr good ↦ rw good c
      ]

  pub Step-IsConsistent :
      {reg reg' : Registry fl} → Step reg reg' → IsConsistent reg → IsConsistent reg'
  unfolding register revoke renew deregister sweep_expired to_stored with_lease
  Step-IsConsistent {reg} {reg'} (registers r now h) c =
      let made : reg'
          ≡ (record reg { store = Dict.insert (id_of r) (to_stored k embedder r) reg.store }) =
        ground arith in
      rw made (insert-IsConsistent reg (id_of r) (to_stored k embedder r) refl c)
  Step-IsConsistent {reg} {reg'} (revokes id rv h) c = elim (Option-cases (Dict.get id reg.store)) [
    | inl absent ↦ absurd (ground arith)
    | inr (s, found) ↦
        let made : reg' ≡ drop_untrusted k embedder (distrust reg rv) id (Dict.get id reg.store) =
          ground arith in
        rw made (
          drop_untrusted-IsConsistent (distrust reg rv) id (Dict.get id reg.store)
            (record { unique = c.unique; keyed = c.keyed }))
  ]
  Step-IsConsistent {reg} {reg'} (renews id now ttl expiry h) c =
      elim (Option-cases (Dict.get id reg.store)) [
        | inl absent ↦ absurd (ground arith)
        | inr (s, found) ↦ elim (Option-cases s.entry.payload.lease) [
          | inl leaseless ↦ absurd (ground arith)
          | inr (old, leased) ↦
              let made : reg' ≡ (record reg {
                store =
                    Dict.insert id (with_lease k embedder s (renewed_lease k embedder now ttl))
                      reg.store;
              }) =
                ground arith in
              rw made (insert-IsConsistent reg id _ (c.keyed id s (get-Has id s reg.store found)) c)
        ]
      ]
  Step-IsConsistent {reg} (deregisters id) c = remove-IsConsistent reg id c
  Step-IsConsistent {reg} (sweeps now) c = record {
    unique = filter-Unique (λ e. not (lease_expired e.1.entry now)) reg.store c.unique;
    keyed = λ j t m.
        c.keyed j t (Has-filter (λ e. not (lease_expired e.1.entry now)) reg.store (j, t) m).0;
  }

  -- Whatever operations have run, each id has one entry, and it is a record of that id.
  pub Reach-IsConsistent : {reg : Registry fl} → Reach reg → IsConsistent reg
  Reach-IsConsistent start = record { unique = tt; keyed = λ id s m. absurd m }
  Reach-IsConsistent (next r st) = Step-IsConsistent st (Reach-IsConsistent r)
