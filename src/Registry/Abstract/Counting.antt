-- ===== src/Registry/Abstract/Counting.antt =====
-- What counts and lists the records of a registry, told from its book.
use mathlib.Core.Path.{subst}
use thicket_ai.Base.{
  ℕ, ◌+◌, ◌-◌, ◌≡◌, ◌≢◌, ◌↔◌, refl, ap, sym, ◌∙◌, inl, inr, Bool, true, false, not, none, some,
  List, [], ◌∷◌, map, filter, length, is_nil, Has, All-of_Has, Has-filter, Has-filter_keep, Has-map,
  Has-map_inv, length-map, eq_refl, arith, Option-cases,
}
use thicket_ai.Base.Float.{Float}
use thicket_ai.Base.Sorting.{Pairwise, Pairwise-filter, Pairwise-map}
use thicket_ai.Base.Dict
use thicket_ai.Base.Dict.{Dict, Unique, get-Has, Has-get, filter-Unique}
use thicket_ai.Core.{Kernel, ResourceId, ResourceId_eq, Visibility, SignedRecord}
use thicket_ai.Registry.{
  Embedder, id_of, lease_expired, is_public, Stored, Registry, public_records,
}
use thicket_ai.Registry.Invariant.{IsConsistent}
use thicket_ai.Registry.Abstract.{Counts, present, has_run_out}
use thicket_ai.Registry.Abstract.View.{entry_of}

pub length-filter-not :
    {A : Type 0} (p : A → Bool) (xs : List A)
    → length (filter p xs) ≡ length xs - length (filter (λ x. not (p x)) xs)
length-filter-not p xs = let both = parts p xs in omega (arith, both)
  where
    parts :
        {A : Type 0} (p : A → Bool) (xs : List A)
        → length (filter p xs) + length (filter (λ x. not (p x)) xs) ≡ length xs
    parts p [] = refl
    parts p (x ∷ xs) = ground (arith, parts p xs)

filter_all : {A : Type 0} (xs : List A) → filter (λ x. true) xs ≡ xs
filter_all [] = refl
filter_all (x ∷ xs) = ap (x ∷◌) (filter_all xs)

visibility_public : (v : Visibility) → is_public v ≡ true → v ≡ Visibility.public
visibility_public Visibility.public h = refl
visibility_public Visibility.unlisted h = ground arith
visibility_public Visibility.private h = ground arith

module _ {fl : Float} where
  abbrev keys : Dict ResourceId (Stored fl) → List ResourceId
  keys d = map (λ (e : ResourceId × Stored fl). e.0) d

  keys-Pairwise : (d : Dict ResourceId (Stored fl)) → Unique d → Pairwise ◌≢◌ (keys d)
  keys-Pairwise [] u = tt
  keys-Pairwise ((id, s) ∷ d) u = (
    All-of_Has (λ j. id ≢ j) (keys d)
        (λ j m same.
          let a = Has-map_inv (λ (e : ResourceId × Stored fl). e.0) d j m in
          let found : Dict.get id d ≡ some a.0.1 =
            rw (same ∙ a.2) (Has-get a.0.0 a.0.1 d u.1 a.1) in
          ground (arith, u.0, found)),
    keys-Pairwise d u.1,
  )

  -- A test on the entries is counted by filtering the map.
  filter-Counts :
      (d : Dict ResourceId (Stored fl)) (p : ResourceId × Stored fl → Bool)
      (test : ResourceId → Bool)
      → Unique d
      → ((id : ResourceId) → Dict.get id d ≡ none → test id ≡ false)
      → ((id : ResourceId) (s : Stored fl) → Dict.get id d ≡ some s → test id ≡ p (id, s))
      → Counts test (length (filter p d))
  filter-Counts d p test u absent there = (
    keys (filter p d),
    keys-Pairwise (filter p d) (filter-Unique p d u),
    (λ id. (
      (λ m.
          let a = Has-map_inv (λ (e : ResourceId × Stored fl). e.0) (filter p d) id m in
          let b = Has-filter p d a.0 a.1 in
          rw a.2 (there a.0.0 a.0.1 (Has-get a.0.0 a.0.1 d u b.0) ∙ b.1)),
      (λ h. elim (Option-cases (Dict.get id d)) [
        | inl gone ↦ let never = absent id gone in absurd (ground arith)
        | inr (s, found) ↦
            Has-map (λ (e : ResourceId × Stored fl). e.0) (filter p d) (id, s)
              (Has-filter_keep p d (id, s) (get-Has id s d found) (sym (there id s found) ∙ h))
      ]),
    )),
    length-map (λ (e : ResourceId × Stored fl). e.0) (filter p d),
  )

  pub expired-Counts :
      (d : Dict ResourceId (Stored fl)) (now : ℕ)
      → Unique d
      → Counts
          (λ id. has_run_out (entry_of (Dict.get id d)) now)
          (length (filter (λ e. lease_expired e.1.entry now) d))
  expired-Counts d now u =
      filter-Counts d (λ e. lease_expired e.1.entry now) _ u (λ id gone. rw gone refl)
        (λ id s found. rw found refl)

  pub present-Counts :
      (d : Dict ResourceId (Stored fl))
      → Unique d
      → Counts (λ id. present (entry_of (Dict.get id d))) (length d)
  present-Counts d u =
      rw (← ap length (filter_all d))
        (filter-Counts d (λ e. true) _ u (λ id gone. rw gone refl) (λ id s found. rw found refl))

  pub is_nil_iff :
      (d : Dict ResourceId (Stored fl))
      → (is_nil d ≡ true) ↔ ((id : ResourceId) → entry_of (Dict.get id d) ≡ none)
  unfolding Dict.get
  is_nil_iff [] = ((λ h id. refl), (λ h. refl))
  is_nil_iff ((id, s) ∷ d) =
      ((λ h. absurd (ground arith)), (λ h. let never = h id in absurd (ground (arith, eq_refl id))))

  abbrev Apart : Stored fl → Stored fl → Type 0
  Apart s s' = id_of s.entry ≢ id_of s'.entry

  -- The entries of a map with one entry for each id are of different identities.
  entries-Pairwise :
      (d : Dict ResourceId (Stored fl))
      → Unique d
      → ((id : ResourceId) (s : Stored fl) → Has (id, s) d → id_of s.entry ≡ id)
      → Pairwise Apart (map (λ (e : ResourceId × Stored fl). e.1) d)
  entries-Pairwise [] u keyed = tt
  entries-Pairwise ((id, s) ∷ d) u keyed = (
    All-of_Has (Apart s) (map (λ (e : ResourceId × Stored fl). e.1) d) (λ x m same.
        let b = Has-map_inv (λ (e : ResourceId × Stored fl). e.1) d x m in
        let key : b.0.0 ≡ id =
          sym (keyed b.0.0 b.0.1 (inr b.1))
          ∙ (ap (λ (s : Stored fl). id_of s.entry) (sym b.2)
              ∙ (sym same ∙ keyed id s (inl refl))) in
        let found : Dict.get id d ≡ some b.0.1 = rw (← key) (Has-get b.0.0 b.0.1 d u.1 b.1) in
        ground (arith, u.0, found)),
    entries-Pairwise d u.1 (λ i x m. keyed i x (inr m)),
  )

module _ (k : Kernel) {fl : Float} (embedder : Embedder fl) where
  module _ (reg : Registry fl) (now : ℕ) (c : IsConsistent reg) where
    abbrev pub Shown : SignedRecord → Type 0
    Shown r =
        (entry_of (Dict.get (id_of r) reg.store) ≡ some r)
        × (r.payload.visibility ≡ Visibility.public)
        × (lease_expired r now ≡ false)

    stored-Shown :
        (id : ResourceId) (s : Stored fl)
        → Has (id, s) reg.store
        → is_public s.entry.payload.visibility ≡ true
        → not (lease_expired s.entry now) ≡ true
        → Shown s.entry
    stored-Shown id s m open_to_all live = (
      ap (λ j. entry_of (Dict.get j reg.store)) (c.keyed id s m)
          ∙ ap entry_of (Has-get id s reg.store c.unique m),
      visibility_public s.entry.payload.visibility open_to_all,
      ground arith,
    )

    listed_sound : (r : SignedRecord) → Has r (public_records k embedder reg now) → Shown r
    unfolding public_records
    listed_sound r m =
        let a = Has-map_inv (λ (s : Stored fl). s.entry) _ r m in
        let b = Has-filter (λ s. not (lease_expired s.entry now)) _ a.0 a.1 in
        let d = Has-filter (λ s. is_public s.entry.payload.visibility) _ a.0 b.0 in
        let e = Has-map_inv (λ (e : ResourceId × Stored fl). e.1) reg.store a.0 d.0 in
        subst Shown (sym a.2) (stored-Shown e.0.0 a.0 (rw e.2 e.1) d.1 b.1)

    listed_complete : (r : SignedRecord) → Shown r → Has r (public_records k embedder reg now)
    unfolding public_records
    listed_complete r (held, open_to_all, live) =
        elim (Option-cases (Dict.get (id_of r) reg.store)) [
          | inl absent ↦ absurd (ground arith)
          | inr (s, found) ↦
              let same : s.entry ≡ r = ground arith in
              rw (← same) (
                Has-map (λ (s : Stored fl). s.entry) _ s
                  (Has-filter_keep (λ s. not (lease_expired s.entry now)) _ s
                    (Has-filter_keep (λ s. is_public s.entry.payload.visibility) _ s
                      (Has-map (λ (e : ResourceId × Stored fl). e.1) reg.store (id_of r, s)
                        (get-Has (id_of r) s reg.store found))
                      (rw same (ap is_public open_to_all)))
                    (rw same (ap not live))))
        ]

    pub public_records_iff :
        (r : SignedRecord) → Has r (public_records k embedder reg now) ↔ Shown r
    public_records_iff r = (listed_sound r, listed_complete r)

    pub public_records-Apart :
        Pairwise (λ r r'. id_of r ≢ id_of r') (public_records k embedder reg now)
    unfolding public_records
    public_records-Apart =
        Pairwise-map (λ (s : Stored fl). s.entry) (λ r r'. id_of r ≢ id_of r') _
          (Pairwise-filter Apart (λ s. not (lease_expired s.entry now)) _
            (Pairwise-filter Apart (λ s. is_public s.entry.payload.visibility) _
              (entries-Pairwise reg.store c.unique c.keyed)))
