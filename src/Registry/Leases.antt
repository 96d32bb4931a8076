-- ===== src/Registry/Leases.antt =====
-- Leases: renewing, expiring, sweeping, withdrawing.
use thicket_ai.Base.{
  ℕ, ◌+◌, ◌%◌, ◌≤◌, ◌<◌, ◌≡◌, ◌≢◌, ◌↔◌, refl, ap, true, false, not, none, some, ok, err, arith,
  u64_mod, length, Has, Has-filter, Has-filter_keep, length-filter-le,
}
use thicket_ai.Base.Float.{Float}
use thicket_ai.Base.Dict
use thicket_ai.Base.Dict.{get-insert_self, get-insert_ne, get-remove_self, get-remove_ne}
use thicket_ai.Core.{Kernel, ResourceId, ResourceId_eq, Lease}
use thicket_ai.Registry.{
  not_found, Embedder, Stored, Registry, lease_expired, resolve, renewed_lease, with_lease, renew,
  deregister, sweep_expired,
}

module _ (k : Kernel) {fl : Float} (embedder : Embedder fl) where
  -- A renewal succeeds exactly for a stored record with a lease. It returns the new expiry, which
  -- is `now + ttl` modulo 2^64, and changes nothing but the lease of that record.
  pub renew_sound :
      (reg : Registry fl) (id : ResourceId) (now ttl : ℕ) (s : Stored fl) (old : Lease)
      → Dict.get id reg.store ≡ some s
      → s.entry.payload.lease ≡ some old
      → (reg' : Registry fl) × (renew k embedder reg id now ttl ≡ ok ((now + ttl) % u64_mod, reg'))
        × (Dict.get id reg'.store
            ≡ some (with_lease k embedder s (renewed_lease k embedder now ttl)))
        × ((other : ResourceId) → other ≢ id → Dict.get other reg'.store ≡ Dict.get other reg.store)
        × (reg'.revocations ≡ reg.revocations)
  unfolding renew renewed_lease
  renew_sound reg id now ttl s old found leased = (
    record reg {
      store = Dict.insert id (with_lease k embedder s (renewed_lease k embedder now ttl)) reg.store;
    },
    ground arith,
    get-insert_self id _ reg.store,
    (λ other ne. get-insert_ne id other _ reg.store ne),
    refl,
  )

  -- A renewal may move the expiry back: nothing compares it with the old one.
  pub renew_may_shorten :
      (reg : Registry fl) (id : ResourceId) (now ttl : ℕ) (s : Stored fl) (old : Lease)
      → Dict.get id reg.store ≡ some s
      → s.entry.payload.lease ≡ some old
      → now + ttl < old.expires_at
      → old.expires_at < u64_mod
      → (expiry : ℕ) × (reg' : Registry fl) × (s' : Stored fl) × (new : Lease) × (renew k embedder
            reg id now ttl
          ≡ ok (expiry, reg'))
        × (Dict.get id reg'.store ≡ some s')
        × (s'.entry.payload.lease ≡ some new)
        × (new.expires_at < old.expires_at)
  unfolding renewed_lease with_lease
  renew_may_shorten reg id now ttl s old found leased less small =
      let r = renew_sound reg id now ttl s old found leased in
      (
        (now + ttl) % u64_mod,
        r.0,
        with_lease k embedder s (renewed_lease k embedder now ttl),
        renewed_lease k embedder now ttl,
        r.1,
        r.2,
        refl,
        omega arith,
      )

  resolve_expired :
      (reg : Registry fl) (id : ResourceId) (now : ℕ) (s : Stored fl)
      → Dict.get id reg.store ≡ some s
      → lease_expired s.entry now ≡ true
      → resolve k embedder reg id now ≡ err not_found
  unfolding resolve
  resolve_expired reg id now s found late = ground arith

  -- A ttl that takes the expiry past 2^64 ends the lease at once: the expiry that is returned lies
  -- before `now`, and the record is no longer found.
  pub renew_overflow :
      (reg : Registry fl) (id : ResourceId) (now ttl : ℕ) (s : Stored fl) (old : Lease)
      → Dict.get id reg.store ≡ some s
      → s.entry.payload.lease ≡ some old
      → now < u64_mod
      → ttl < u64_mod
      → u64_mod ≤ now + ttl
      → (expiry : ℕ) × (reg' : Registry fl) × (renew k embedder reg id now ttl ≡ ok (expiry, reg'))
        × (expiry < now)
        × (resolve k embedder reg' id now ≡ err not_found)
  unfolding lease_expired with_lease renewed_lease
  renew_overflow reg id now ttl s old found leased a b c =
      let r = renew_sound reg id now ttl s old found leased in
      let early : (now + ttl) % u64_mod < now = omega arith in
      ((now + ttl) % u64_mod, r.0, r.1, early, resolve_expired r.0 id now _ r.2 (ground arith))

  -- After a sweep exactly the entries whose lease has not passed are left, and the count is the
  -- number of those that went.
  pub sweep_exact :
      (reg : Registry fl) (now : ℕ)
      → let (n, reg') = sweep_expired k embedder reg now in
        (n + length reg'.store ≡ length reg.store)
        × (reg'.revocations ≡ reg.revocations)
        × ((e : ResourceId × Stored fl)
            → Has e reg'.store ↔ (Has e reg.store × (lease_expired e.1.entry now ≡ false)))
  unfolding sweep_expired
  sweep_exact reg now = (
    omega (
      arith,
      length-filter-le (λ (e : ResourceId × Stored fl). not (lease_expired e.1.entry now))
          reg.store,
    ),
    refl,
    (λ e. (
      (λ m.
          let r = Has-filter (λ e. not (lease_expired e.1.entry now)) reg.store e m in
          (r.0, ground arith)),
      (λ r. Has-filter_keep (λ e. not (lease_expired e.1.entry now)) reg.store e r.0 (ap not r.1)),
    )),
  )

  -- A withdrawn record is gone and no other entry changes; the answer says whether it was there.
  pub deregister_exact :
      (reg : Registry fl) (id : ResourceId)
      → let (was, reg') = deregister k embedder reg id in
        ((was ≡ true) ↔ ((s : Stored fl) × (Dict.get id reg.store ≡ some s)))
        × (Dict.get id reg'.store ≡ none)
        × ((other : ResourceId) → other ≢ id → Dict.get other reg'.store ≡ Dict.get other reg.store)
        × (reg'.revocations ≡ reg.revocations)
  unfolding deregister
  deregister_exact reg id = (
    ((λ h. ground arith), (λ w. let f = w.1 in ground arith)),
    get-remove_self id reg.store,
    (λ other ne. get-remove_ne id other reg.store ne),
    refl,
  )
