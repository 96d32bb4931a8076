-- ===== src/Registry/Abstract/View.antt =====
-- The book that a registry keeps, and how it changes with the map.
use mathlib.Core.Path.{fun_ext}
use thicket_ai.Base.{
  ℕ, ◌≡◌, refl, inl, inr, not, Option, none, some, [], ◌∷◌, filter, ◌==◌, arith, Bool-cases,
}
use thicket_ai.Base.Float.{Float}
use thicket_ai.Base.Dict
use thicket_ai.Base.Dict.{
  Dict, Unique, get-insert_self, get-insert_ne, get-remove_self, get-remove_ne, get-filter-none,
}
use thicket_ai.Core.{ResourceId, ResourceId_eq, id_eq_iff, SignedRecord}
use thicket_ai.Registry.{lease_expired, Stored, Registry}
use thicket_ai.Registry.Abstract.{Book, update, unexpired}

module _ {fl : Float} where
  abbrev pub entry_of : Option (Stored fl) → Option SignedRecord
  entry_of none = none
  entry_of (some s) = some s.entry

  -- The book that a registry keeps.
  unfoldable pub view : Registry fl → Book
  view reg = record {
    entry = λ id. entry_of (Dict.get id reg.store);
    revocations = reg.revocations;
  }

  pub entry-insert :
      (id : ResourceId) (s : Stored fl) (d : Dict ResourceId (Stored fl))
      → (λ j. entry_of (Dict.get j (Dict.insert id s d)))
        ≡ update (λ j. entry_of (Dict.get j d)) id (some s.entry)
  entry-insert id s d = fun_ext λ j. elim (Bool-cases (j == id)) [
    | inl hit ↦ rw (hit, (id_eq_iff j id).0 hit, get-insert_self id s d) refl
    | inr miss ↦ rw (miss, get-insert_ne id j s d (λ q. ground (arith, id_eq_iff j id))) refl
  ]

  pub entry-remove :
      (id : ResourceId) (d : Dict ResourceId (Stored fl))
      → (λ j. entry_of (Dict.get j (Dict.remove id d)))
        ≡ update (λ j. entry_of (Dict.get j d)) id none
  entry-remove id d = fun_ext λ j. elim (Bool-cases (j == id)) [
    | inl hit ↦ rw (hit, (id_eq_iff j id).0 hit, get-remove_self id d) refl
    | inr miss ↦ rw (miss, get-remove_ne id j d (λ q. ground (arith, id_eq_iff j id))) refl
  ]

  pub entry-sweep :
      (now : ℕ) (d : Dict ResourceId (Stored fl)) (j : ResourceId)
      → Unique d
      → entry_of (Dict.get j (filter (λ e. not (lease_expired e.1.entry now)) d))
        ≡ unexpired (entry_of (Dict.get j d)) now
  unfolding Dict.get
  entry-sweep now [] j u = refl
  entry-sweep now ((i, s) ∷ d) j u =
      let ih = entry-sweep now d j u.1 in
      elim (Bool-cases (i == j)) [
        | inl hit ↦
            let gone : Dict.get j d ≡ none = rw (← (id_eq_iff i j).0 hit) u.0 in
            elim (Bool-cases (lease_expired s.entry now)) [
              | inl late ↦
                  rw (hit, late, get-filter-none (λ e. not (lease_expired e.1.entry now)) j d gone)
                    refl
              | inr live ↦ rw (live, hit, live) refl
            ]
        | inr miss ↦ elim (Bool-cases (lease_expired s.entry now)) [
          | inl late ↦ rw (late, miss) ih
          | inr live ↦ rw (live, miss) ih
        ]
      ]
