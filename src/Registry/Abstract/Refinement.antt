-- ===== src/Registry/Abstract/Refinement.antt =====
-- The registry refines its book.
use mathlib.Core.Path.{fun_ext}
use thicket_ai.Base.{
  ℕ, ◌≡◌, refl, ap, inl, inr, List, [], ◌∷◌, leb, ◌-◌, not, filter, length, is_nil, Bool-cases,
  Option-cases, Result-cases,
}
use thicket_ai.Base.Float.{Float}
use thicket_ai.Base.Dict
use thicket_ai.Base.Dict.{
  Dict, Unique, get-insert_self, get-insert_ne, get-remove_self, get-remove_ne, get-filter-none,
}
use thicket_ai.Core.{Kernel, ResourceId, ResourceId_eq, Visibility, SignedRecord, Revocation}
use thicket_ai.Core.Identity.{is_revoked, revoke_key, verify_revocation}
use thicket_ai.Core.Record.{verify_record}
use thicket_ai.Registry.{
  Embedder, id_of, lease_expired, Registry, is_stale, to_stored, register, resolve_stored, resolve,
  drop_untrusted, revoke, renewed_lease, with_lease, renew, deregister, sweep_expired, record_count,
  has_no_records, public_records,
}
use thicket_ai.Registry.Abstract.View.{entry_of, view, entry-insert, entry-remove, entry-sweep}
use thicket_ai.Registry.Invariant
use thicket_ai.Registry.Invariant.{IsConsistent, Step-IsConsistent}
use thicket_ai.Registry.Abstract.Counting.{
  length-filter-not, expired-Counts, present-Counts, is_nil_iff, public_records-Apart,
  public_records_iff,
}
use thicket_ai.Registry.Abstract.{
  Call, registers, resolves, revokes, renews, deregisters, sweeps, resolved, withdrawn, present,
  visible, counts, asks_empty, lists, register_book, resolve_book, revoke_book, renew_book,
  deregister_book, sweep_book, Promised, PromisedAll, apply, apply_all,
}

module _ (k : Kernel) {fl : Float} (embedder : Embedder fl) where
  resolve-visible :
      (v : Visibility) (r : SignedRecord) → resolve_stored k embedder r v ≡ visible r v
  unfolding resolve_stored
  resolve-visible Visibility.private r = refl
  resolve-visible Visibility.public r = refl
  resolve-visible Visibility.unlisted r = refl

  -- One call gives an answer that the book promises, and leaves its next state.
  abbrev Agrees : Call → Registry fl → Type 0
  Agrees c reg =
      Promised k c (view reg) (apply k embedder c reg).0 (view (apply k embedder c reg).1)

  registers-Agrees : (r : SignedRecord) (now : ℕ) (reg : Registry fl) → Agrees (registers r now) reg
  unfolding apply register_book register is_stale view to_stored
  registers-Agrees r now reg = elim (Result-cases (verify_record k r now reg.revocations)) [
    | inl (e, failed) ↦ rw (apply, register_book, failed) (refl, refl)
    | inr (u, verified) ↦ elim (Option-cases (Dict.get (id_of r) reg.store)) [
      | inl absent ↦
          rw (apply, register_book, verified, absent)
            (
              refl,
              ap (λ f. record { entry = f; revocations = reg.revocations })
                  (entry-insert (id_of r) _ reg.store),
            )
      | inr (s, found) ↦ elim (Bool-cases (leb r.payload.version s.entry.payload.version)) [
        | inl old ↦ rw (apply, register_book, verified, found, old) (refl, refl)
        | inr newer ↦
            rw (apply, register_book, verified, found, newer)
              (
                refl,
                ap (λ f. record { entry = f; revocations = reg.revocations })
                    (entry-insert (id_of r) _ reg.store),
              )
      ]
    ]
  ]

  resolves-Agrees : (id : ResourceId) (now : ℕ) (reg : Registry fl) → Agrees (resolves id now) reg
  unfolding apply resolve_book resolve view
  resolves-Agrees id now reg = elim (Option-cases (Dict.get id reg.store)) [
    | inl absent ↦ rw (apply, resolve_book, absent) (refl, refl)
    | inr (s, found) ↦ elim (Bool-cases (lease_expired s.entry now)) [
      | inl late ↦ rw (apply, resolve_book, found, late) (refl, refl)
      | inr live ↦
          rw (apply, resolve_book, found, live)
            (ap (λ x. resolved x) (resolve-visible s.entry.payload.visibility s.entry), refl)
    ]
  ]

  revokes-Agrees :
      (id : ResourceId) (rv : Revocation) (reg : Registry fl) → Agrees (revokes id rv) reg
  unfolding apply revoke_book revoke drop_untrusted view
  revokes-Agrees id rv reg = elim (Option-cases (Dict.get id reg.store)) [
    | inl absent ↦ rw (apply, revoke_book, absent) (refl, refl)
    | inr (s, found) ↦
        elim (Result-cases (verify_revocation k s.entry.payload.root_public_key rv)) [
          | inl (e, failed) ↦ rw (apply, revoke_book, found, failed) (refl, refl)
          | inr (u, verified) ↦
              elim (Bool-cases
                (is_revoked (revoke_key reg.revocations rv.working_pub) s.entry.signer_pub)) [
                  | inl bad ↦
                      rw (apply, revoke_book, found, verified, bad)
                        (
                          refl,
                          ap
                              (λ f. record {
                                entry = f;
                                revocations = revoke_key reg.revocations rv.working_pub;
                              })
                              (entry-remove id reg.store),
                        )
                  | inr good ↦ rw (apply, revoke_book, found, verified, good) (refl, refl)
                ]
        ]
  ]

  renews-Agrees :
      (id : ResourceId) (now ttl : ℕ) (reg : Registry fl) → Agrees (renews id now ttl) reg
  unfolding apply renew_book renew renewed_lease with_lease view
  renews-Agrees id now ttl reg = elim (Option-cases (Dict.get id reg.store)) [
    | inl absent ↦ rw (apply, renew_book, absent) (refl, refl)
    | inr (s, found) ↦ elim (Option-cases s.entry.payload.lease) [
      | inl leaseless ↦ rw (apply, renew_book, found, leaseless) (refl, refl)
      | inr (old, leased) ↦
          rw (apply, renew_book, found, leased)
            (
              refl,
              ap (λ f. record { entry = f; revocations = reg.revocations })
                  (entry-insert id _ reg.store),
            )
    ]
  ]

  present-is_some :
      (id : ResourceId) (reg : Registry fl)
      → (deregister k embedder reg id).0 ≡ present (entry_of (Dict.get id reg.store))
  unfolding deregister
  present-is_some id reg = elim (Option-cases (Dict.get id reg.store)) [
    | inl absent ↦ rw (absent, deregister) refl
    | inr (s, found) ↦ rw (found, deregister) refl
  ]

  deregisters-Agrees : (id : ResourceId) (reg : Registry fl) → Agrees (deregisters id) reg
  unfolding apply deregister_book deregister view
  deregisters-Agrees id reg = (
    ap (λ x. withdrawn x) (present-is_some id reg),
    ap (λ f. record { entry = f; revocations = reg.revocations }) (entry-remove id reg.store),
  )

  sweeps-Agrees : (now : ℕ) (reg : Registry fl) → IsConsistent reg → Agrees (sweeps now) reg
  unfolding apply sweep_book sweep_expired view
  sweeps-Agrees now reg c = (
    length reg.store - length (filter (λ e. not (lease_expired e.1.entry now)) reg.store),
    refl,
    rw (← length-filter-not (λ e. lease_expired e.1.entry now) reg.store)
        (expired-Counts reg.store now c.unique),
    ap (λ f. record { entry = f; revocations = reg.revocations })
        (fun_ext λ j. entry-sweep now reg.store j c.unique),
  )

  counts-Agrees : (reg : Registry fl) → IsConsistent reg → Agrees counts reg
  unfolding apply record_count view
  counts-Agrees reg c = (length reg.store, refl, present-Counts reg.store c.unique, refl)

  asks_empty-Agrees : (reg : Registry fl) → Agrees asks_empty reg
  unfolding apply has_no_records view
  asks_empty-Agrees reg = (is_nil reg.store, refl, is_nil_iff reg.store, refl)

  lists-Agrees : (now : ℕ) (reg : Registry fl) → IsConsistent reg → Agrees (lists now) reg
  unfolding apply view
  lists-Agrees now reg c = (
    public_records k embedder reg now,
    refl,
    public_records-Apart k embedder reg now c,
    public_records_iff k embedder reg now c,
    refl,
  )

  apply-Agrees : (c : Call) (reg : Registry fl) → IsConsistent reg → Agrees c reg
  apply-Agrees (registers r now) reg i = registers-Agrees r now reg
  apply-Agrees (resolves id now) reg i = resolves-Agrees id now reg
  apply-Agrees (revokes id rv) reg i = revokes-Agrees id rv reg
  apply-Agrees (renews id now ttl) reg i = renews-Agrees id now ttl reg
  apply-Agrees (deregisters id) reg i = deregisters-Agrees id reg
  apply-Agrees (sweeps now) reg i = sweeps-Agrees now reg i
  apply-Agrees counts reg i = counts-Agrees reg i
  apply-Agrees asks_empty reg i = asks_empty-Agrees reg
  apply-Agrees (lists now) reg i = lists-Agrees now reg i

  apply-IsConsistent :
      (c : Call) (reg : Registry fl) → IsConsistent reg → IsConsistent (apply k embedder c reg).1
  unfolding apply
  apply-IsConsistent (registers r now) reg i = elim (Result-cases (register k embedder reg r now)) [
    | inl (e, failed) ↦ rw (apply, failed) i
    | inr (reg', did) ↦
        rw (apply, did) (Step-IsConsistent k embedder (Invariant.registers r now did) i)
  ]
  apply-IsConsistent (resolves id now) reg i = i
  apply-IsConsistent (revokes id rv) reg i = elim (Result-cases (revoke k embedder reg id rv)) [
    | inl (e, failed) ↦ rw (apply, failed) i
    | inr (reg', did) ↦
        rw (apply, did) (Step-IsConsistent k embedder (Invariant.revokes id rv did) i)
  ]
  apply-IsConsistent (renews id now ttl) reg i =
      elim (Result-cases (renew k embedder reg id now ttl)) [
        | inl (e, failed) ↦ rw (apply, failed) i
        | inr ((expiry, reg'), did) ↦
            rw (apply, did)
              (Step-IsConsistent k embedder (Invariant.renews id now ttl expiry did) i)
      ]
  apply-IsConsistent (deregisters id) reg i =
      Step-IsConsistent k embedder (Invariant.deregisters id) i
  apply-IsConsistent (sweeps now) reg i = Step-IsConsistent k embedder (Invariant.sweeps now) i
  apply-IsConsistent counts reg i = i
  apply-IsConsistent asks_empty reg i = i
  apply-IsConsistent (lists now) reg i = i

  -- Over any sequence of calls but searches, a consistent registry gives answers that a book promises,
  -- which is a function from ids to records with the revoked keys, and keeps the book's state. The
  -- book determines each answer, but for the order in which the public records are listed: a sweep
  -- answers with the number of the records that have run out, and `len`, `is_empty` and
  -- `public_records` with those that there are.
  pub apply_all-PromisedAll :
      (calls : List Call) (reg : Registry fl)
      → IsConsistent reg
      → PromisedAll k calls
          (view reg)
          (apply_all k embedder calls reg).0
          (view (apply_all k embedder calls reg).1)
  unfolding apply_all
  apply_all-PromisedAll [] reg i = refl
  apply_all-PromisedAll (c ∷ cs) reg i = (
    view (apply k embedder c reg).1,
    apply-Agrees c reg i,
    apply_all-PromisedAll cs (apply k embedder c reg).1 (apply-IsConsistent c reg i),
  )
