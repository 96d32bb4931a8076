-- ===== src/Base/Dict.antt =====
-- `HashMap` and `BTreeMap` as association lists. The order of the entries stands for the order in
-- which the map iterates, which Rust leaves open for a `HashMap`: the theorems hold for any.
use mathlib.Core.Path.{◌≡◌, refl, sym, ◌∙◌}
use mathlib.Core.Logic.{◌≢◌, ◌⊎◌, inl, inr}
use mathlib.Core.Bool.{Bool, true, false}
use mathlib.Core.List.{List, [], ◌∷◌}
use mathlib.Core.Option.{Option, none, some}
use native.Mathlib.Omega.{arith}
use thicket_ai.Base.Tests.{if◌then◌else◌, Bool-cases}
use thicket_ai.Base.Lists.{Has, filter}
use thicket_ai.Base.Equality.{Eq, ◌==◌, eq_refl}

abbrev pub Dict {ℓ κ} : Type ℓ → Type κ → Type (ℓ ⊔ κ)
Dict K V = List (K × V)

module _ {ℓ κ} {K : Type ℓ} {V : Type κ} ⦃e : Eq K⦄ where
  -- `map.get(k)`
  unfoldable pub get : K → Dict K V → Option V
  get k [] = none
  get k ((j, v) ∷ d) = if j == k then some v else get k d

  -- `map.insert(k, v)`
  unfoldable pub insert : K → V → Dict K V → Dict K V
  insert k v [] = (k, v) ∷ []
  insert k v ((j, w) ∷ d) = if j == k then (k, v) ∷ d else (j, w) ∷ insert k v d

  -- `map.remove(k)`
  unfoldable pub remove : K → Dict K V → Dict K V
  remove k [] = []
  remove k ((j, w) ∷ d) = let rest = remove k d in if j == k then rest else (j, w) ∷ rest

  pub get-insert_self : (k : K) (v : V) (d : Dict K V) → get k (insert k v d) ≡ some v
  unfolding get insert
  get-insert_self k v [] = ground (arith, eq_refl k)
  get-insert_self k v ((j, w) ∷ d) = ground (arith, eq_refl k, get-insert_self k v d)

  pub get-insert_ne : (k j : K) (v : V) (d : Dict K V) → j ≢ k → get j (insert k v d) ≡ get j d
  unfolding get insert
  get-insert_ne k j v [] h = ground (arith, e.same_iff k j)
  get-insert_ne k j v ((i, w) ∷ d) h =
      ground (arith, e.same_iff k j, e.same_iff i k, e.same_iff i j, get-insert_ne k j v d h)

  pub get-remove_self : (k : K) (d : Dict K V) → get k (remove k d) ≡ none
  unfolding get remove
  get-remove_self k [] = refl
  get-remove_self k ((j, w) ∷ d) = ground (arith, get-remove_self k d)

  pub get-remove_ne : (k j : K) (d : Dict K V) → j ≢ k → get j (remove k d) ≡ get j d
  unfolding get remove
  get-remove_ne k j [] h = refl
  get-remove_ne k j ((i, w) ∷ d) h =
      ground (arith, e.same_iff k j, e.same_iff i k, e.same_iff i j, get-remove_ne k j d h)

  -- Removing what is not there changes no lookup.
  pub get-remove-missing : (k j : K) (d : Dict K V) → get k d ≡ none → get j (remove k d) ≡ get j d
  get-remove-missing k j d h = elim (Bool-cases (j == k)) [
    | inl hit ↦ let same : j ≡ k = (e.same_iff j k).0 hit in rw same (get-remove_self k d ∙ sym h)
    | inr miss ↦ get-remove_ne k j d (λ q. ground (arith, e.same_iff j k))
  ]

-- What a lookup finds is an entry.
pub get-Has :
    {K V : Type 0} ⦃e : Eq K⦄ (k : K) (v : V) (d : Dict K V) → get k d ≡ some v → Has (k, v) d
unfolding get
get-Has k v [] h = ground arith
get-Has ⦃e⦄ k v ((j, w) ∷ d) h = elim (Bool-cases (j == k)) [
  | inl hit ↦ inl (ground (arith, e.same_iff j k))
  | inr miss ↦ inr (get-Has k v d (ground arith))
]

-- Each key has one entry.
abbrev pub Unique : {K V : Type 0} ⦃e : Eq K⦄ → Dict K V → Type 0
Unique [] = Unit
Unique ((k, v) ∷ d) = (get k d ≡ none) × Unique d

ne_of_test : {K : Type 0} ⦃e : Eq K⦄ (j k : K) → (j == k) ≡ false → j ≢ k
ne_of_test ⦃e⦄ j k h q = ground (arith, e.same_iff j k)

module _ {K V : Type 0} ⦃e : Eq K⦄ where
  pub insert-Unique : (k : K) (v : V) (d : Dict K V) → Unique d → Unique (insert k v d)
  unfolding insert
  insert-Unique k v [] u = (unfold get in refl, tt)
  insert-Unique k v ((j, w) ∷ d) u = go (j == k) refl (insert-Unique k v d u.1)
    where
      go :
          (b : Bool)
          → (j == k) ≡ b
          → Unique (insert k v d)
          → Unique (if b then (k, v) ∷ d else (j, w) ∷ insert k v d)
      go true hit ih = let q : j ≡ k = (e.same_iff j k).0 hit in (rw (← q) u.0, u.1)
      go false miss ih = (get-insert_ne k j v d (ne_of_test j k miss) ∙ u.0, ih)

  pub remove-Unique : (k : K) (d : Dict K V) → Unique d → Unique (remove k d)
  unfolding remove
  remove-Unique k [] u = tt
  remove-Unique k ((j, w) ∷ d) u = go (j == k) refl (remove-Unique k d u.1)
    where
      go :
          (b : Bool)
          → (j == k) ≡ b
          → Unique (remove k d)
          → Unique (if b then remove k d else (j, w) ∷ remove k d)
      go true hit ih = ih
      go false miss ih = (get-remove_ne k j d (ne_of_test j k miss) ∙ u.0, ih)

  pub get-filter-none :
      (p : K × V → Bool) (k : K) (d : Dict K V) → get k d ≡ none → get k (filter p d) ≡ none
  unfolding get
  get-filter-none p k [] h = refl
  get-filter-none p k ((j, w) ∷ d) h = ground (arith, get-filter-none p k d)

  pub filter-Unique : (p : K × V → Bool) (d : Dict K V) → Unique d → Unique (filter p d)
  filter-Unique p [] u = tt
  filter-Unique p ((j, w) ∷ d) u = elim (Bool-cases (p (j, w))) [
    | inl keep ↦ rw keep (get-filter-none p j d u.0, filter-Unique p d u.1)
    | inr drops ↦ rw drops (filter-Unique p d u.1)
  ]

  -- In a map with unique keys every entry is what its key finds.
  pub Has-get : (k : K) (v : V) (d : Dict K V) → Unique d → Has (k, v) d → get k d ≡ some v
  unfolding get
  Has-get k v [] u m = absurd m
  Has-get k v ((j, w) ∷ d) u (inl q) = ground (arith, e.same_iff j k)
  Has-get k v ((j, w) ∷ d) u (inr m) = ground (arith, e.same_iff j k, Has-get k v d u.1 m)

  pub Has-insert :
      (k : K) (v : V) (d : Dict K V) (x : K × V) → Has x (insert k v d) → (x ≡ (k, v)) ⊎ Has x d
  unfolding insert
  Has-insert k v [] x (inl q) = inl q
  Has-insert k v [] x (inr m) = absurd m
  Has-insert k v ((j, w) ∷ d) x m = elim (Bool-cases (j == k)) [
    | inl hit ↦ front (rw hit at m)
    | inr miss ↦ behind (Has-insert k v d x) (rw miss at m)
  ]
    where
      front : (x ≡ (k, v)) ⊎ Has x d → (x ≡ (k, v)) ⊎ ((x ≡ (j, w)) ⊎ Has x d)
      front (inl q) = inl q
      front (inr n) = inr (inr n)

      behind :
          (Has x (insert k v d) → (x ≡ (k, v)) ⊎ Has x d)
          → (x ≡ (j, w)) ⊎ Has x (insert k v d)
          → (x ≡ (k, v)) ⊎ ((x ≡ (j, w)) ⊎ Has x d)
      behind ih (inl q) = inr (inl q)
      behind ih (inr n) = elim (ih n) [ inl q ↦ inl q | inr o ↦ inr (inr o) ]

  pub Has-remove : (k : K) (d : Dict K V) (x : K × V) → Has x (remove k d) → Has x d
  unfolding remove
  Has-remove k [] x m = m
  Has-remove k ((j, w) ∷ d) x m = elim (Bool-cases (j == k)) [
    | inl hit ↦ inr (Has-remove k d x (rw hit at m))
    | inr miss ↦ keep (Has-remove k d x) (rw miss at m)
  ]
    where
      keep :
          (Has x (remove k d) → Has x d)
          → (x ≡ (j, w)) ⊎ Has x (remove k d)
          → (x ≡ (j, w)) ⊎ Has x d
      keep ih (inl q) = inl q
      keep ih (inr n) = inr (ih n)
