-- ===== src/Federation/Gathering.antt =====
-- What a federated search gathers: for each id, the newest of the verified records that the selected
-- peers answered with.
use mathlib.Core.List.{foldl}
use thicket_ai.Base.{
  ℕ, ◌≤◌, ◌≡◌, ◌⊎◌, inl, inr, ap, sym, ◌∙◌, some, List, [], ◌∷◌, Has, ok, is_ok, leb, arith,
  Bool-cases, Option-cases, ◌==◌,
}
use thicket_ai.Base.Float.{Float}
use thicket_ai.Base.Dict
use thicket_ai.Base.Dict.{
  Dict, Unique, insert-Unique, Has-insert, get-Has, Has-get, get-insert_self, get-insert_ne,
}
use thicket_ai.Core.{Kernel, ResourceId, ResourceId_eq, SignedRecord, id_eq_iff}
use thicket_ai.Core.Identity.{no_revocations}
use thicket_ai.Core.Record.{verify_record}
use thicket_ai.Registry.{Need, Embedder, id_of}
use thicket_ai.Federation.{Federation, is_newer, keep_best, at, answers, gather}
use thicket_ai.Federation.Resolve.{is_ok-eq}

-- The best records so far, by id.
abbrev pub Best : Type 0
Best = Dict ResourceId SignedRecord

module _ (k : Kernel) {fl : Float} (embedder : Embedder fl) (now : ℕ) where
  -- Every record kept verifies and stands under its own id, which has one entry.
  pub record IsVerified (best : Best) : Type 0 where
    pub unique : Unique best
    pub kept :
        (id : ResourceId) (r : SignedRecord)
        → Has (id, r) best
        → (id_of r ≡ id) × (verify_record k r now no_revocations ≡ ok tt)

  insert-IsVerified :
      (best : Best) (r : SignedRecord)
      → verify_record k r now no_revocations ≡ ok tt
      → IsVerified best
      → IsVerified (Dict.insert (id_of r) r best)
  insert-IsVerified best r good v = record {
    unique = insert-Unique (id_of r) r best v.unique;
    kept = λ id x m. elim (Has-insert (id_of r) r best (id, x) m) [
      | inl q ↦
          let a : id ≡ id_of r = ap (λ (e : ResourceId × SignedRecord). e.0) q in
          let b : x ≡ r = ap (λ (e : ResourceId × SignedRecord). e.1) q in
          (ap id_of b ∙ sym a, rw b good)
      | inr n ↦ v.kept id x n
    ];
  }

  -- What one record does: it is kept, and is newer than what its id had; or nothing changes, and it
  -- does not verify or its id has a record that is no older.
  keep_best_cases :
      (best : Best) (r : SignedRecord)
      → ((keep_best k embedder now best r ≡ Dict.insert (id_of r) r best)
          × (verify_record k r now no_revocations ≡ ok tt)
          × ((old : SignedRecord)
              → Dict.get (id_of r) best ≡ some old
              → old.payload.version ≤ r.payload.version))
        ⊎ ((keep_best k embedder now best r ≡ best)
            × (verify_record k r now no_revocations ≡ ok tt
                → (old : SignedRecord) × (Dict.get (id_of r) best ≡ some old)
                  × (r.payload.version ≤ old.payload.version)))
  unfolding keep_best is_newer
  keep_best_cases best r = elim (Bool-cases (is_ok (verify_record k r now no_revocations))) [
    | inr bad ↦ inr (ground arith, λ good. absurd (ground arith))
    | inl good ↦ elim (Option-cases (Dict.get (id_of r) best)) [
      | inl fresh ↦ inl (
        ground arith,
        (is_ok-eq (verify_record k r now no_revocations) good).1,
        λ old q. absurd (ground arith),
      )
      | inr (old, found) ↦ elim (Bool-cases (leb r.payload.version old.payload.version)) [
        | inl older ↦ inr (ground arith, λ _. (old, found, ground arith))
        | inr newer ↦ inl (
          ground arith,
          (is_ok-eq (verify_record k r now no_revocations) good).1,
          λ x q. ground arith,
        )
      ]
    ]
  ]

  keep_best-IsVerified :
      (best : Best) (r : SignedRecord)
      → IsVerified best
      → IsVerified (keep_best k embedder now best r)
  keep_best-IsVerified best r v = elim (keep_best_cases best r) [
    | inl c ↦ rw c.0 (insert-IsVerified best r c.1 v)
    | inr c ↦ rw c.0 v
  ]

  -- `best'` has every id of `best`, at a version that is no older.
  abbrev NoOlder : Best → Best → Type 0
  NoOlder best best' =
      (id : ResourceId) (r : SignedRecord)
      → Dict.get id best ≡ some r
      → (r' : SignedRecord) × (Dict.get id best' ≡ some r')
        × (r.payload.version ≤ r'.payload.version)

  NoOlder-trans : (a b c : Best) → NoOlder a b → NoOlder b c → NoOlder a c
  NoOlder-trans a b c p q id r found =
      let x = p id r found in let y = q id x.0 x.1 in (y.0, y.1, ground arith)

  -- The id of the record has a record that is no older.
  abbrev pub Covers : Best → SignedRecord → Type 0
  Covers best r =
      (r' : SignedRecord) × (Dict.get (id_of r) best ≡ some r')
      × (r.payload.version ≤ r'.payload.version)

  insert-NoOlder :
      (best : Best) (r : SignedRecord)
      → ((old : SignedRecord)
          → Dict.get (id_of r) best ≡ some old
          → old.payload.version ≤ r.payload.version)
      → NoOlder best (Dict.insert (id_of r) r best)
  insert-NoOlder best r newer id x found = elim (Bool-cases (id_of r == id)) [
    | inl same ↦
        let q : id_of r ≡ id = (id_eq_iff (id_of r) id).0 same in
        (r, rw (← q) (get-insert_self (id_of r) r best), newer x (rw q found))
    | inr other ↦ (
      x,
      get-insert_ne (id_of r) id r best (λ q. ground (arith, id_eq_iff (id_of r) id)) ∙ found,
      ground arith,
    )
  ]

  keep_best-NoOlder :
      (best : Best) (r : SignedRecord) → NoOlder best (keep_best k embedder now best r)
  keep_best-NoOlder best r = elim (keep_best_cases best r) [
    | inl c ↦ rw c.0 (insert-NoOlder best r c.2)
    | inr c ↦ rw c.0 (λ id x found. (x, found, ground arith))
  ]

  keep_best-Covers :
      (best : Best) (r : SignedRecord)
      → verify_record k r now no_revocations ≡ ok tt
      → Covers (keep_best k embedder now best r) r
  keep_best-Covers best r good = elim (keep_best_cases best r) [
    | inl c ↦ rw c.0 (r, get-insert_self (id_of r) r best, ground arith)
    | inr c ↦ rw c.0 (c.1 good)
  ]

  -- The same for all records of one answer.
  fold-IsVerified :
      (rs : List SignedRecord) (best : Best)
      → IsVerified best
      → IsVerified (foldl (keep_best k embedder now) best rs)
  fold-IsVerified [] best v = v
  fold-IsVerified (r ∷ rs) best v =
      fold-IsVerified rs (keep_best k embedder now best r) (keep_best-IsVerified best r v)

  fold-NoOlder :
      (rs : List SignedRecord) (best : Best)
      → NoOlder best (foldl (keep_best k embedder now) best rs)
  fold-NoOlder [] best = λ id x found. (x, found, ground arith)
  fold-NoOlder (r ∷ rs) best =
      NoOlder-trans best (keep_best k embedder now best r)
        (foldl (keep_best k embedder now) (keep_best k embedder now best r) rs)
        (keep_best-NoOlder best r) (fold-NoOlder rs (keep_best k embedder now best r))

  fold-Covers :
      (rs : List SignedRecord) (best : Best) (r : SignedRecord)
      → Has r rs
      → verify_record k r now no_revocations ≡ ok tt
      → Covers (foldl (keep_best k embedder now) best rs) r
  fold-Covers [] best r m good = absurd m
  fold-Covers (x ∷ rs) best r (inl q) good = rw q (
      let c = keep_best-Covers best x (rw (← q) good) in
      let d = fold-NoOlder rs (keep_best k embedder now best x) (id_of x) c.0 c.1 in
      (d.0, d.1, ground arith))
  fold-Covers (x ∷ rs) best r (inr m) good =
      fold-Covers rs (keep_best k embedder now best x) r m good

  module _ (fed : Federation fl) (need : Need) where
    abbrev after : ℕ → Best → Best
    after i best =
        foldl (keep_best k embedder now) best (answers k embedder (at fed.peers i) need now)

    pub gather-IsVerified :
        (is : List ℕ) (best : Best)
        → IsVerified best
        → IsVerified (gather k embedder fed need now is best)
    unfolding gather
    gather-IsVerified [] best v = v
    gather-IsVerified (i ∷ is) best v =
        gather-IsVerified is (after i best)
          (fold-IsVerified (answers k embedder (at fed.peers i) need now) best v)

    gather-NoOlder :
        (is : List ℕ) (best : Best) → NoOlder best (gather k embedder fed need now is best)
    unfolding gather
    gather-NoOlder [] best = λ id x found. (x, found, ground arith)
    gather-NoOlder (i ∷ is) best =
        NoOlder-trans best (after i best) (gather k embedder fed need now is (after i best))
          (fold-NoOlder (answers k embedder (at fed.peers i) need now) best)
          (gather-NoOlder is (after i best))

    pub gather-Covers :
        (is : List ℕ) (best : Best) (i : ℕ) (r : SignedRecord)
        → Has i is
        → Has r (answers k embedder (at fed.peers i) need now)
        → verify_record k r now no_revocations ≡ ok tt
        → Covers (gather k embedder fed need now is best) r
    unfolding gather
    gather-Covers [] best i r m a good = absurd m
    gather-Covers (j ∷ is) best i r (inl q) a good =
        let c =
          fold-Covers (answers k embedder (at fed.peers j) need now) best r (rw q at a) good in
        let d = gather-NoOlder is (after j best) (id_of r) c.0 c.1 in (d.0, d.1, ground arith)
    gather-Covers (j ∷ is) best i r (inr m) a good = gather-Covers is (after j best) i r m a good
