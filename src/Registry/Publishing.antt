-- ===== src/Registry/Publishing.antt =====
-- Registering and resolving.
use thicket_ai.Base.{
  ℕ, ◌≤◌, ◌<◌, ◌≡◌, ◌≢◌, ◌↔◌, inl, inr, false, some, ok, err, arith, Option-cases,
}
use thicket_ai.Base.Float.{Float}
use thicket_ai.Base.Dict
use thicket_ai.Base.Dict.{get-insert_self, get-insert_ne}
use thicket_ai.Core.{Kernel, ResourceId, ResourceId_eq, Visibility, SignedRecord}
use thicket_ai.Core.Record.{verify_record}
use thicket_ai.Registry.{
  stale, Embedder, id_of, lease_expired, Stored, Registry, is_stale, to_stored, register,
  resolve_stored, resolve,
}

module _ (k : Kernel) {fl : Float} (embedder : Embedder fl) where
  -- The registry stores `s` under `id`.
  abbrev pub Holds : Registry fl → ResourceId → Stored fl → Type 0
  Holds reg id s = Dict.get id reg.store ≡ some s

  -- A successful registration has verified the record, replaced only an older version, stored the
  -- record under its id, and changed no other entry and no revocation.
  pub register_sound :
      (reg : Registry fl) (r : SignedRecord) (now : ℕ) (reg' : Registry fl)
      → register k embedder reg r now ≡ ok reg'
      → (verify_record k r now reg.revocations ≡ ok tt)
        × ((old : Stored fl)
            → Holds reg (id_of r) old
            → old.entry.payload.version < r.payload.version)
        × Holds reg' (id_of r) (to_stored k embedder r)
        × ((id : ResourceId) → id ≢ id_of r → Dict.get id reg'.store ≡ Dict.get id reg.store)
        × (reg'.revocations ≡ reg.revocations)
  unfolding register is_stale
  register_sound reg r now reg' h =
      let made : reg'
          ≡ (record reg { store = Dict.insert (id_of r) (to_stored k embedder r) reg.store }) =
        ground arith in
      (
        ground arith,
        (λ old found. ground arith),
        rw made (get-insert_self (id_of r) (to_stored k embedder r) reg.store),
        (λ id ne. rw made (get-insert_ne (id_of r) id (to_stored k embedder r) reg.store ne)),
        rw made,
      )

  -- A verified record is refused exactly when the stored version is at least as new.
  pub register-stale :
      (reg : Registry fl) (r : SignedRecord) (now : ℕ)
      → verify_record k r now reg.revocations ≡ ok tt
      → (register k embedder reg r now ≡ err stale) ↔ (
          (old : Stored fl) × Holds reg (id_of r) old
          × (r.payload.version ≤ old.entry.payload.version))
  unfolding register is_stale
  register-stale reg r now v = (
    (λ h. elim (Option-cases (Dict.get (id_of r) reg.store)) [
      | inl absent ↦ absurd (ground arith)
      | inr (old, found) ↦ (old, found, ground arith)
    ]),
    (λ w. let found = w.1 in let newer = w.2 in ground arith),
  )

  -- What is registered can be resolved at once, unless it is private or its lease has passed.
  pub resolve-register :
      (reg : Registry fl) (r : SignedRecord) (now : ℕ) (reg' : Registry fl)
      → register k embedder reg r now ≡ ok reg'
      → r.payload.visibility ≢ Visibility.private
      → lease_expired r now ≡ false
      → resolve k embedder reg' (id_of r) now ≡ ok r
  unfolding resolve resolve_stored to_stored
  resolve-register reg r now reg' h open' live =
      let stored = (register_sound reg r now reg' h).2 in ground arith

  -- A private record is never resolved, an unknown or expired one is not found.
  pub resolve_sound :
      (reg : Registry fl) (id : ResourceId) (now : ℕ) (r : SignedRecord)
      → resolve k embedder reg id now ≡ ok r
      → (s : Stored fl) × Holds reg id s
        × (s.entry ≡ r)
        × (lease_expired r now ≡ false)
        × (r.payload.visibility ≢ Visibility.private)
  unfolding resolve resolve_stored
  resolve_sound reg id now r h = elim (Option-cases (Dict.get id reg.store)) [
    | inl absent ↦ absurd (ground arith)
    | inr (s, found) ↦ (s, found, ground arith, ground arith, ground arith)
  ]
