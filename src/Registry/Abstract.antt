-- ===== src/Registry/Abstract.antt =====
-- What the registry promises, without its map and without embeddings: a function from ids to records,
-- and the keys that are revoked. The calls are those of registry.rs but `search`; what lists or counts
-- records is promised up to the order of the map.
pub mod View
pub mod Counting
pub mod Refinement
use thicket_ai.Base.{
  ℕ, ◌%◌, ◌+◌, ◌≡◌, ◌≢◌, ◌↔◌, Bool, true, false, Option, none, some, List, [], ◌∷◌, ⊤, Result, ok,
  err, leb, u64_mod, ◌==◌, if◌then◌else◌, Has, length,
}
use thicket_ai.Base.Float.{Float}
use thicket_ai.Base.Sorting.{Pairwise}
use thicket_ai.Core.{Kernel, ResourceId, ResourceId_eq, Visibility, SignedRecord, Revocation}
use thicket_ai.Core.Identity.{RevocationSet, is_revoked, revoke_key, verify_revocation}
use thicket_ai.Core.Record.{verify_record}
use thicket_ai.Registry.{
  RegistryError, core, stale, not_found, not_authorized, Embedder, id_of, lease_expired, Registry,
  register, resolve, revoke, renew, deregister, sweep_expired, record_count, has_no_records,
  public_records,
}

pub record Book : Type 0 where
  pub entry : ResourceId → Option SignedRecord
  pub revocations : RevocationSet

-- The calls of a registry but `search`, and what they return. `counts`, `asks_empty` and `lists` are
-- `len`, `is_empty` and `public_records`.
pub data Call : Type 0 where
  registers : SignedRecord → ℕ → Call
  resolves : ResourceId → ℕ → Call
  revokes : ResourceId → Revocation → Call
  renews : ResourceId → ℕ → ℕ → Call
  deregisters : ResourceId → Call
  sweeps : ℕ → Call
  counts : Call
  asks_empty : Call
  lists : ℕ → Call

pub data Answer : Type 0 where
  changed : Result RegistryError ⊤ → Answer
  resolved : Result RegistryError SignedRecord → Answer
  renewed : Result RegistryError ℕ → Answer
  withdrawn : Bool → Answer
  swept : ℕ → Answer
  counted : ℕ → Answer
  answered_empty : Bool → Answer
  listed : List SignedRecord → Answer

-- a function, changed at one id
abbrev pub update :
    (ResourceId → Option SignedRecord)
    → ResourceId
    → Option SignedRecord
    → ResourceId
    → Option SignedRecord
update f id o j = if j == id then o else f j

abbrev pub is_older : Option SignedRecord → SignedRecord → Bool
is_older none r = false
is_older (some old) r = leb r.payload.version old.payload.version

abbrev pub present : Option SignedRecord → Bool
present none = false
present (some r) = true

abbrev pub unexpired : Option SignedRecord → ℕ → Option SignedRecord
unexpired none now = none
unexpired (some r) now = if lease_expired r now then none else some r

abbrev pub has_run_out : Option SignedRecord → ℕ → Bool
has_run_out none now = false
has_run_out (some r) now = lease_expired r now

abbrev pub visible : SignedRecord → Visibility → Result RegistryError SignedRecord
visible r Visibility.private = err not_authorized
visible r Visibility.public = ok r
visible r Visibility.unlisted = ok r

abbrev pub renewed_record : SignedRecord → ℕ → ℕ → SignedRecord
renewed_record r now ttl = record r {
  payload = record r.payload {
    lease = some (record { ttl = ttl; issued_at = now; expires_at = (now + ttl) % u64_mod });
  };
}

-- `n` ids pass the test.
abbrev pub Counts : (ResourceId → Bool) → ℕ → Type 0
Counts test n =
    (ids : List ResourceId) × Pairwise ◌≢◌ ids
    × ((id : ResourceId) → Has id ids ↔ (test id ≡ true))
    × (length ids ≡ n)

module _ (k : Kernel) where
  -- The calls on the book whose answer it determines.
  unfoldable pub register_book : SignedRecord → ℕ → Book → Answer × Book
  register_book r now b = elim (verify_record k r now b.revocations) [
    | err e ↦ (changed (err (core e)), b)
    | ok _ ↦
        if is_older (b.entry (id_of r)) r
        then (changed (err stale), b)
        else (changed (ok tt), record b { entry = update b.entry (id_of r) (some r) })
  ]

  unfoldable pub resolve_book : ResourceId → ℕ → Book → Answer × Book
  resolve_book id now b = elim (b.entry id) [
    | none ↦ (resolved (err not_found), b)
    | some r ↦
        if lease_expired r now
        then (resolved (err not_found), b)
        else (resolved (visible r r.payload.visibility), b)
  ]

  unfoldable pub revoke_book : ResourceId → Revocation → Book → Answer × Book
  revoke_book id rv b = elim (b.entry id) [
    | none ↦ (changed (err not_found), b)
    | some r ↦ elim (verify_revocation k r.payload.root_public_key rv) [
      | err e ↦ (changed (err (core e)), b)
      | ok _ ↦
          let revs = revoke_key b.revocations rv.working_pub in
          (
            changed (ok tt),
            record {
              entry = if is_revoked revs r.signer_pub then update b.entry id none else b.entry;
              revocations = revs;
            },
          )
    ]
  ]

  unfoldable pub renew_book : ResourceId → ℕ → ℕ → Book → Answer × Book
  renew_book id now ttl b = elim (b.entry id) [
    | none ↦ (renewed (err not_found), b)
    | some r ↦ elim r.payload.lease [
      | none ↦ (renewed (err not_found), b)
      | some old ↦ (
        renewed (ok ((now + ttl) % u64_mod)),
        record b { entry = update b.entry id (some (renewed_record r now ttl)) },
      )
    ]
  ]

  unfoldable pub deregister_book : ResourceId → Book → Answer × Book
  deregister_book id b =
      (withdrawn (present (b.entry id)), record b { entry = update b.entry id none })

  unfoldable pub sweep_book : ℕ → Book → Book
  sweep_book now b = record b { entry = λ id. unexpired (b.entry id) now }

  -- What a call on a book may answer, and the book after it.
  abbrev pub Promised : Call → Book → Answer → Book → Type 0
  Promised (registers r now) b a b' =
      (a ≡ (register_book r now b).0) × (b' ≡ (register_book r now b).1)
  Promised (resolves id now) b a b' =
      (a ≡ (resolve_book id now b).0) × (b' ≡ (resolve_book id now b).1)
  Promised (revokes id rv) b a b' = (a ≡ (revoke_book id rv b).0) × (b' ≡ (revoke_book id rv b).1)
  Promised (renews id now ttl) b a b' =
      (a ≡ (renew_book id now ttl b).0) × (b' ≡ (renew_book id now ttl b).1)
  Promised (deregisters id) b a b' =
      (a ≡ (deregister_book id b).0) × (b' ≡ (deregister_book id b).1)
  -- how many records have run out
  Promised (sweeps now) b a b' =
      (n : ℕ) × (a ≡ swept n)
      × Counts (λ id. has_run_out (b.entry id) now) n
      × (b' ≡ sweep_book now b)
  -- how many records there are
  Promised counts b a b' =
      (n : ℕ) × (a ≡ counted n) × Counts (λ id. present (b.entry id)) n × (b' ≡ b)
  Promised asks_empty b a b' =
      (e : Bool) × (a ≡ answered_empty e)
      × ((e ≡ true) ↔ ((id : ResourceId) → b.entry id ≡ none))
      × (b' ≡ b)
  -- the records that are public and live, each once
  Promised (lists now) b a b' =
      (rs : List SignedRecord) × (a ≡ listed rs)
      × Pairwise (λ r r'. id_of r ≢ id_of r') rs
      × ((r : SignedRecord)
          → Has r rs ↔ (
              (b.entry (id_of r) ≡ some r)
              × (r.payload.visibility ≡ Visibility.public)
              × (lease_expired r now ≡ false)))
      × (b' ≡ b)

  -- The same for a sequence of calls and the list of their answers.
  abbrev pub PromisedAll : List Call → Book → List Answer → Book → Type 0
  PromisedAll [] b [] b' = b' ≡ b
  PromisedAll (c ∷ cs) b (a ∷ answers) b' =
      (mid : Book) × Promised c b a mid × PromisedAll cs mid answers b'
  PromisedAll _ b _ b' = ⊥

-- an error leaves the state as it is
abbrev pub or_kept {ℓ κ} : {E : Type ℓ} {S : Type κ} → Result E S → S → Result E ⊤ × S
or_kept (ok s') s = (ok tt, s')
or_kept (err e) s = (err e, s)

module _ (k : Kernel) {fl : Float} (embedder : Embedder fl) where
  -- The calls of the code.
  unfoldable pub apply : Call → Registry fl → Answer × Registry fl
  apply (registers r now) reg =
      let x = or_kept (register k embedder reg r now) reg in (changed x.0, x.1)
  apply (resolves id now) reg = (resolved (resolve k embedder reg id now), reg)
  apply (revokes id rv) reg =
      let x = or_kept (revoke k embedder reg id rv) reg in (changed x.0, x.1)
  apply (renews id now ttl) reg = elim (renew k embedder reg id now ttl) [
    | ok x ↦ (renewed (ok x.0), x.1)
    | err e ↦ (renewed (err e), reg)
  ]
  apply (deregisters id) reg = let x = deregister k embedder reg id in (withdrawn x.0, x.1)
  apply (sweeps now) reg = let x = sweep_expired k embedder reg now in (swept x.0, x.1)
  apply counts reg = (counted (record_count k embedder reg), reg)
  apply asks_empty reg = (answered_empty (has_no_records k embedder reg), reg)
  apply (lists now) reg = (listed (public_records k embedder reg now), reg)

  unfoldable pub apply_all : List Call → Registry fl → List Answer × Registry fl
  unfolding apply
  apply_all [] reg = ([], reg)
  apply_all (c ∷ cs) reg =
      let one = apply c reg in let rest = apply_all cs one.1 in (one.0 ∷ rest.0, rest.1)
