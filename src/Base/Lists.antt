-- ===== src/Base/Lists.antt =====
-- Lists measured by native numbers, and the searches of Rust's iterators.
use Prim.Native.Nat.{ℕ, zero, suc, ◌+◌, ◌-◌, ◌≤◌, min}
use mathlib.Core.Path.{◌≡◌, refl, ap, sym, subst}
use mathlib.Core.Bool.{Bool, true, false, ◌&&◌, ◌||◌}
use mathlib.Core.List.{List, [], ◌∷◌, ◌++◌, map}
use mathlib.Core.Option.{Option, none, some}
use mathlib.Core.Logic.{◌⊎◌, inl, inr}
use native.Mathlib.Omega.{arith}
use thicket_ai.Base.Tests.{if◌then◌else◌, Bool-cases}

module _ {ℓ} {A : Type ℓ} where
  abbrev pub length : List A → ℕ
  length [] = 0
  length (x ∷ xs) = suc (length xs)

  abbrev pub take : ℕ → List A → List A
  take zero xs = []
  take (suc n) [] = []
  take (suc n) (x ∷ xs) = x ∷ take n xs

  abbrev pub drop : ℕ → List A → List A
  drop zero xs = xs
  drop (suc n) [] = []
  drop (suc n) (x ∷ xs) = drop n xs

  -- `is_empty`
  abbrev pub is_nil : List A → Bool
  is_nil [] = true
  is_nil (x ∷ xs) = false

  -- `slice::last`
  abbrev pub last : List A → Option A
  last [] = none
  last (x ∷ []) = some x
  last (x ∷ y ∷ r) = last (y ∷ r)

  -- `iter().find(p)`
  abbrev pub find : (A → Bool) → List A → Option A
  find p [] = none
  find p (x ∷ xs) = if p x then some x else find p xs

  -- `iter().any(p)`
  abbrev pub any : (A → Bool) → List A → Bool
  any p [] = false
  any p (x ∷ xs) = p x || any p xs

  -- `iter().all(p)`
  abbrev pub all : (A → Bool) → List A → Bool
  all p [] = true
  all p (x ∷ xs) = p x && all p xs

  -- `iter().filter(p)`
  abbrev pub filter : (A → Bool) → List A → List A
  filter p [] = []
  filter p (x ∷ xs) = let rest = filter p xs in if p x then x ∷ rest else rest

  -- `P` holds of every element.
  abbrev pub All {κ} : (A → Type κ) → List A → Type κ
  All P [] = Unit
  All P (x ∷ xs) = P x × All P xs

-- `x` is an element, with its place.
abbrev pub Has : {A : Type 0} → A → List A → Type 0
Has x [] = ⊥
Has x (y ∷ ys) = (x ≡ y) ⊎ Has x ys

module _ {ℓ} {A : Type ℓ} where
  pub length-append : (xs ys : List A) → length (xs ++ ys) ≡ length xs + length ys
  length-append [] ys = omega arith
  length-append (x ∷ xs) ys = omega (arith, length-append xs ys)

  pub take-append-drop : (n : ℕ) (xs : List A) → take n xs ++ drop n xs ≡ xs
  take-append-drop zero xs = refl
  take-append-drop (suc n) [] = refl
  take-append-drop (suc n) (x ∷ xs) = ap (◌∷◌ x) (take-append-drop n xs)

  pub length-take : (n : ℕ) (xs : List A) → length (take n xs) ≡ min n (length xs)
  length-take zero xs = omega arith
  length-take (suc n) [] = omega arith
  length-take (suc n) (x ∷ xs) = omega (arith, length-take n xs)

  pub length-drop : (n : ℕ) (xs : List A) → length (drop n xs) ≡ length xs - n
  length-drop zero xs = omega arith
  length-drop (suc n) [] = omega arith
  length-drop (suc n) (x ∷ xs) = omega (arith, length-drop n xs)

  pub take-append : (xs ys : List A) → take (length xs) (xs ++ ys) ≡ xs
  take-append [] ys = refl
  take-append (x ∷ xs) ys = ap (◌∷◌ x) (take-append xs ys)

  pub drop-append : (xs ys : List A) → drop (length xs) (xs ++ ys) ≡ ys
  drop-append [] ys = refl
  drop-append (x ∷ xs) ys = drop-append xs ys

  pub last-append : (xs : List A) (x : A) → last (xs ++ x ∷ []) ≡ some x
  last-append [] x = refl
  last-append (y ∷ []) x = refl
  last-append (y ∷ z ∷ r) x = last-append (z ∷ r) x

  -- What `find` returns passes its test.
  pub find-test : (p : A → Bool) (xs : List A) {a : A} → find p xs ≡ some a → p a ≡ true
  find-test p [] h = ground arith
  find-test p (x ∷ xs) {a} h = ground (arith, find-test p xs {a = a})

module _ {A : Type 0} where
  pub find-Has : (p : A → Bool) (xs : List A) (a : A) → find p xs ≡ some a → Has a xs
  find-Has p [] a h = ground arith
  find-Has p (x ∷ xs) a h = ground (arith, find-Has p xs a)

  pub All-Has : (P : A → Type 0) (xs : List A) (a : A) → All P xs → Has a xs → P a
  All-Has P [] a h m = absurd m
  All-Has P (x ∷ xs) a h (inl e) = subst P (sym e) h.0
  All-Has P (x ∷ xs) a h (inr m) = All-Has P xs a h.1 m

  pub All-of_Has : (P : A → Type 0) (xs : List A) → ((a : A) → Has a xs → P a) → All P xs
  All-of_Has P [] h = tt
  All-of_Has P (x ∷ xs) h = (h x (inl refl), All-of_Has P xs (λ a m. h a (inr m)))

  pub all-Has : (p : A → Bool) (xs : List A) (a : A) → all p xs ≡ true → Has a xs → p a ≡ true
  all-Has p [] a h m = absurd m
  all-Has p (x ∷ xs) a h (inl e) = ground arith
  all-Has p (x ∷ xs) a h (inr m) = all-Has p xs a (ground arith) m

  pub all_of_Has :
      (p : A → Bool) (xs : List A) → ((a : A) → Has a xs → p a ≡ true) → all p xs ≡ true
  all_of_Has p [] h = refl
  all_of_Has p (x ∷ xs) h = rw (h x (inl refl)) (all_of_Has p xs (λ a m. h a (inr m)))

  pub Has-append_left : (xs ys : List A) (a : A) → Has a xs → Has a (xs ++ ys)
  Has-append_left [] ys a m = absurd m
  Has-append_left (x ∷ xs) ys a (inl e) = inl e
  Has-append_left (x ∷ xs) ys a (inr m) = inr (Has-append_left xs ys a m)

  Has-filter_step :
      (p : A → Bool) (x a : A) (xs : List A)
      → p x ≡ true
      → (Has a (filter p xs) → Has a xs × (p a ≡ true))
      → (a ≡ x) ⊎ Has a (filter p xs)
      → Has a (x ∷ xs) × (p a ≡ true)
  Has-filter_step p x a xs t ih (inl e) = (inl e, rw e t)
  Has-filter_step p x a xs t ih (inr m) = let r = ih m in (inr r.0, r.1)

  -- What `filter` keeps was there, and passes the test.
  pub Has-filter :
      (p : A → Bool) (xs : List A) (a : A) → Has a (filter p xs) → Has a xs × (p a ≡ true)
  Has-filter p [] a m = absurd m
  Has-filter p (x ∷ xs) a m = elim (Bool-cases (p x)) [
    | inl pass ↦ Has-filter_step p x a xs pass (Has-filter p xs a) (rw pass at m)
    | inr drops ↦ let r = Has-filter p xs a (rw drops at m) in (inr r.0, r.1)
  ]

  pub last-Has : (xs : List A) (a : A) → last xs ≡ some a → Has a xs
  last-Has [] a h = ground arith
  last-Has (x ∷ []) a h = inl (ground arith)
  last-Has (x ∷ y ∷ r) a h = inr (last-Has (y ∷ r) a h)

  pub length-filter-le : (p : A → Bool) (xs : List A) → length (filter p xs) ≤ length xs
  length-filter-le p [] = omega arith
  length-filter-le p (x ∷ xs) = ground (arith, length-filter-le p xs)

  Has-filter_keep_step :
      (p : A → Bool) (x a : A) (xs : List A)
      → p a ≡ true
      → (Has a xs → Has a (filter p xs))
      → (b : Bool) → p x ≡ b
      → (a ≡ x) ⊎ Has a xs
      → Has a (if b then x ∷ filter p xs else filter p xs)
  Has-filter_keep_step p x a xs t ih true e (inl q) = inl q
  Has-filter_keep_step p x a xs t ih true e (inr m) = inr (ih m)
  Has-filter_keep_step p x a xs t ih false e (inl q) = absurd (ground arith)
  Has-filter_keep_step p x a xs t ih false e (inr m) = ih m

  -- `filter` keeps what passes.
  pub Has-filter_keep :
      (p : A → Bool) (xs : List A) (a : A) → Has a xs → p a ≡ true → Has a (filter p xs)
  Has-filter_keep p [] a m t = absurd m
  Has-filter_keep p (x ∷ xs) a m t =
      Has-filter_keep_step p x a xs t (λ n. Has-filter_keep p xs a n t) (p x) refl m

  pub Has-take : (n : ℕ) (xs : List A) (a : A) → Has a (take n xs) → Has a xs
  Has-take zero xs a m = absurd m
  Has-take (suc n) [] a m = absurd m
  Has-take (suc n) (x ∷ xs) a (inl q) = inl q
  Has-take (suc n) (x ∷ xs) a (inr m) = inr (Has-take n xs a m)

  pub take_of_length-le :
      (count : ℕ) (whole : List A) → length whole ≤ count → take count whole ≡ whole
  take_of_length-le zero [] short = refl
  take_of_length-le (suc count) [] short = refl
  take_of_length-le zero (x ∷ rest) short = absurd (omega arith)
  take_of_length-le (suc count) (x ∷ rest) short =
      ap (λ tail. x ∷ tail) (take_of_length-le count rest (omega arith))

module _ {A B : Type 0} (g : A → B) where
  pub Has-map : (xs : List A) (a : A) → Has a xs → Has (g a) (map g xs)
  Has-map [] a m = absurd m
  Has-map (x ∷ xs) a (inl q) = inl (ap g q)
  Has-map (x ∷ xs) a (inr m) = inr (Has-map xs a m)

  -- What `map` holds comes from an element.
  pub Has-map_inv : (xs : List A) (b : B) → Has b (map g xs) → (a : A) × Has a xs × (b ≡ g a)
  Has-map_inv [] b m = absurd m
  Has-map_inv (x ∷ xs) b (inl q) = (x, inl refl, q)
  Has-map_inv (x ∷ xs) b (inr m) = let r = Has-map_inv xs b m in (r.0, inr r.1, r.2)

  pub length-map : (xs : List A) → length (map g xs) ≡ length xs
  length-map [] = refl
  length-map (x ∷ xs) = ap suc (length-map xs)
