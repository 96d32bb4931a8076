-- ===== src/Base/Sorting.antt =====
-- What `slice::sort_by` promises, and an insertion sort that keeps the promise.
use Prim.Native.Nat.{ℕ, zero, suc, Ordering}
use mathlib.Core.Path.{◌≡◌, refl, ap, sym, ◌∙◌, subst}
use mathlib.Core.Logic.{inl, inr, ◌≢◌}
use mathlib.Core.Bool.{Bool}
use mathlib.Core.List.{List, [], ◌∷◌, ◌++◌, map, Permᴰ}
use mathlib.Core.List.Permᴰ
use native.Mathlib.Omega.{arith}
use thicket_ai.Base.Lists.{
  Has, All, All-Has, All-of_Has, length, take, drop, filter, Has-filter, Has-map_inv,
}
use thicket_ai.Base.Tests.{Bool-cases}
use thicket_ai.Base.Float.{Float}

-- `Ordering::reverse`
abbrev pub reverse : Ordering → Ordering
reverse Ordering.lt = Ordering.gt
reverse Ordering.eq = Ordering.eq
reverse Ordering.gt = Ordering.lt

-- Each element has the relation to all that follow.
abbrev pub Pairwise : {A : Type 0} → (A → A → Type 0) → List A → Type 0
Pairwise R [] = Unit
Pairwise R (x ∷ xs) = All (R x) xs × Pairwise R xs

-- The comparison is a total order, up to equality, on the elements of the list.
pub record IsOrder {A : Type 0} (cmp : A → A → Ordering) (xs : List A) : Type 0 where
  pub flips : (a b : A) → Has a xs → Has b xs → cmp b a ≡ reverse (cmp a b)
  pub trans :
      (a b c : A)
      → Has a xs
      → Has b xs
      → Has c xs
      → cmp a b ≢ Ordering.gt
      → cmp b c ≢ Ordering.gt
      → cmp a c ≢ Ordering.gt

-- The elements are always kept; they are in order where the comparison is a total order on them.
pub record SortLaws (fl : Float) : Type 1 where
  pub permutes : {A : Type 0} (cmp : A → A → Ordering) (xs : List A) → Permᴰ (fl.sort_by cmp xs) xs
  pub sorts :
      {A : Type 0} (cmp : A → A → Ordering) (xs : List A)
      → IsOrder cmp xs
      → Pairwise (λ a b. cmp a b ≢ Ordering.gt) (fl.sort_by cmp xs)

module _ {A : Type 0} where
  pub Has-Perm : {xs ys : List A} (a : A) → Permᴰ xs ys → Has a xs → Has a ys
  Has-Perm a Permᴰ.nil m = m
  Has-Perm a (Permᴰ.cons e p) (inl q) = inl (q ∙ e)
  Has-Perm a (Permᴰ.cons e p) (inr m) = inr (Has-Perm a p m)
  Has-Perm a (Permᴰ.swap e e') (inl q) = inr (inl (q ∙ e))
  Has-Perm a (Permᴰ.swap e e') (inr (inl q)) = inl (q ∙ e')
  Has-Perm a (Permᴰ.swap e e') (inr (inr m)) = inr (inr m)
  Has-Perm a (Permᴰ.trans p q) m = Has-Perm a q (Has-Perm a p m)

  pub length-Perm : {xs ys : List A} → Permᴰ xs ys → length xs ≡ length ys
  length-Perm Permᴰ.nil = refl
  length-Perm (Permᴰ.cons e p) = ap suc (length-Perm p)
  length-Perm (Permᴰ.swap e e') = refl
  length-Perm (Permᴰ.trans p q) = length-Perm p ∙ length-Perm q

  pub All-Perm : (P : A → Type 0) {xs ys : List A} → Permᴰ xs ys → All P ys → All P xs
  All-Perm P {xs} {ys} p h = All-of_Has P xs (λ a m. All-Has P ys a h (Has-Perm a p m))

  -- A symmetric relation between all elements does not ask for their order.
  pub Pairwise-Perm :
      (R : A → A → Type 0)
      → ((a b : A) → R a b → R b a)
      → {xs ys : List A} → Permᴰ xs ys
      → Pairwise R xs
      → Pairwise R ys
  Pairwise-Perm R flip Permᴰ.nil h = tt
  Pairwise-Perm R flip (Permᴰ.cons e p) (first, rest) =
      (All-Perm (R _) (Permᴰ.symm p) (rw (← e) first), Pairwise-Perm R flip p rest)
  Pairwise-Perm R flip (Permᴰ.swap {l = l} e e') ((ab, a), (b, rest)) = (
    (rw (← e, ← e') (flip _ _ ab), subst (λ x. All (R x) l) e' b),
    (subst (λ x. All (R x) l) e a, rest),
  )
  Pairwise-Perm R flip (Permᴰ.trans p q) h = Pairwise-Perm R flip q (Pairwise-Perm R flip p h)

  All-take : (P : A → Type 0) (n : ℕ) (xs : List A) → All P xs → All P (take n xs)
  All-take P zero xs h = tt
  All-take P (suc n) [] h = tt
  All-take P (suc n) (x ∷ xs) (p, h) = (p, All-take P n xs h)

  pub Pairwise-take :
      (R : A → A → Type 0) (n : ℕ) (xs : List A) → Pairwise R xs → Pairwise R (take n xs)
  Pairwise-take R zero xs h = tt
  Pairwise-take R (suc n) [] h = tt
  Pairwise-take R (suc n) (x ∷ xs) (p, h) = (All-take (R x) n xs p, Pairwise-take R n xs h)

  -- A relation that follows from another holds pairwise where the other does.
  pub Pairwise-weaken :
      (R S : A → A → Type 0)
      → ((a b : A) → R a b → S a b)
      → (xs : List A) → Pairwise R xs
      → Pairwise S xs
  Pairwise-weaken R S f [] h = tt
  Pairwise-weaken R S f (x ∷ xs) (p, h) =
      (All-of_Has (S x) xs (λ a m. f x a (All-Has (R x) xs a p m)), Pairwise-weaken R S f xs h)

  pub Pairwise-filter :
      (R : A → A → Type 0) (p : A → Bool) (xs : List A) → Pairwise R xs → Pairwise R (filter p xs)
  Pairwise-filter R p [] h = tt
  Pairwise-filter R p (x ∷ xs) (first, rest) =
      let ih = Pairwise-filter R p xs rest in
      elim (Bool-cases (p x)) [
        | inl passes ↦ rw passes (
          All-of_Has (R x) (filter p xs) (λ a m. All-Has (R x) xs a first (Has-filter p xs a m).0),
          ih,
        )
        | inr fails ↦ rw fails ih
      ]

  pub Pairwise-map :
      {B : Type 0} (g : A → B) (R : B → B → Type 0) (xs : List A)
      → Pairwise (λ a b. R (g a) (g b)) xs
      → Pairwise R (map g xs)
  Pairwise-map g R [] h = tt
  Pairwise-map g R (x ∷ xs) (first, rest) = (
    All-of_Has (R (g x)) (map g xs) (λ b m.
        let a = Has-map_inv g xs b m in
        subst (R (g x)) (sym a.2) (All-Has (λ y. R (g x) (g y)) xs a.0 first a.1)),
    Pairwise-map g R xs rest,
  )

  pub take-append-drop : (n : ℕ) (xs : List A) → take n xs ++ drop n xs ≡ xs
  take-append-drop zero xs = refl
  take-append-drop (suc n) [] = refl
  take-append-drop (suc n) (x ∷ xs) = ap (x ∷◌) (take-append-drop n xs)

module _ {A : Type 0} (cmp : A → A → Ordering) where
  -- puts `x` before the first element that is not below it
  unfoldable insert_sorted : A → List A → List A
  insert_sorted x [] = x ∷ []
  insert_sorted x (y ∷ ys) =
      let later = y ∷ insert_sorted x ys in elim (cmp x y) [ Ordering.gt ↦ later | _ ↦ x ∷ y ∷ ys ]

  -- a stable sort
  unfoldable pub insertion_sort : List A → List A
  unfolding insert_sorted
  insertion_sort [] = []
  insertion_sort (x ∷ xs) = insert_sorted x (insertion_sort xs)

  insert_step-Perm :
      (x y : A) (ys : List A)
      → Permᴰ (insert_sorted x ys) (x ∷ ys)
      → (o : Ordering)
      → Permᴰ (elim o [ Ordering.gt ↦ y ∷ insert_sorted x ys | _ ↦ x ∷ y ∷ ys ]) (x ∷ y ∷ ys)
  insert_step-Perm x y ys p Ordering.gt = Permᴰ.trans (Permᴰ.cons refl p) (Permᴰ.swap refl refl)
  insert_step-Perm x y ys p Ordering.lt = Permᴰ.refl _
  insert_step-Perm x y ys p Ordering.eq = Permᴰ.refl _

  insert_sorted-Perm : (x : A) (ys : List A) → Permᴰ (insert_sorted x ys) (x ∷ ys)
  unfolding insert_sorted
  insert_sorted-Perm x [] = Permᴰ.refl _
  insert_sorted-Perm x (y ∷ ys) = insert_step-Perm x y ys (insert_sorted-Perm x ys) (cmp x y)

  pub insertion_sort-Perm : (xs : List A) → Permᴰ (insertion_sort xs) xs
  unfolding insertion_sort
  insertion_sort-Perm [] = Permᴰ.nil
  insertion_sort-Perm (x ∷ xs) =
      Permᴰ.trans (insert_sorted-Perm x (insertion_sort xs))
        (Permᴰ.cons refl (insertion_sort-Perm xs))

  abbrev NotAbove : A → A → Type 0
  NotAbove a b = cmp a b ≢ Ordering.gt

  IsOrder-sub : (xs ys : List A) → ((a : A) → Has a ys → Has a xs) → IsOrder cmp xs → IsOrder cmp ys
  IsOrder-sub xs ys into o = record {
    flips = λ a b m n. o.flips a b (into a m) (into b n);
    trans = λ a b c m n l. o.trans a b c (into a m) (into b n) (into c l);
  }

  head_below :
      (x y : A) (ys : List A)
      → IsOrder cmp (x ∷ y ∷ ys)
      → All (NotAbove y) ys
      → NotAbove x y
      → All (NotAbove x) (y ∷ ys)
  head_below x y ys o first h = (
    h,
    All-of_Has (NotAbove x) ys (λ a m.
        o.trans x y a (inl refl) (inr (inl refl)) (inr (inr m)) h
          (All-Has (NotAbove y) ys a first m)),
  )

  insert_step-Pairwise :
      (x y : A) (ys : List A)
      → IsOrder cmp (x ∷ y ∷ ys)
      → Pairwise NotAbove (y ∷ ys)
      → Pairwise NotAbove (insert_sorted x ys)
      → (o : Ordering) → cmp x y ≡ o
      → Pairwise NotAbove (elim o [ Ordering.gt ↦ y ∷ insert_sorted x ys | _ ↦ x ∷ y ∷ ys ])
  insert_step-Pairwise x y ys o (first, rest) ih Ordering.gt e =
      let turned = o.flips x y (inl refl) (inr (inl refl)) in
      (All-Perm (NotAbove y) (insert_sorted-Perm x ys) ((λ q. ground (arith, turned)), first), ih)
  insert_step-Pairwise x y ys o (first, rest) ih Ordering.lt e =
      (head_below x y ys o first (λ q. ground arith), (first, rest))
  insert_step-Pairwise x y ys o (first, rest) ih Ordering.eq e =
      (head_below x y ys o first (λ q. ground arith), (first, rest))

  insert_sorted-Pairwise :
      (x : A) (ys : List A)
      → IsOrder cmp (x ∷ ys)
      → Pairwise NotAbove ys
      → Pairwise NotAbove (insert_sorted x ys)
  unfolding insert_sorted
  insert_sorted-Pairwise x [] o h = (tt, tt)
  insert_sorted-Pairwise x (y ∷ ys) o h =
      let ih =
        insert_sorted-Pairwise x ys
          (IsOrder-sub (x ∷ y ∷ ys) (x ∷ ys) (λ a m. elim m [ inl q ↦ inl q | inr n ↦ inr (inr n) ])
            o)
          h.1 in
      insert_step-Pairwise x y ys o h ih (cmp x y) refl

  pub insertion_sort-Pairwise :
      (xs : List A) → IsOrder cmp xs → Pairwise NotAbove (insertion_sort xs)
  unfolding insertion_sort
  insertion_sort-Pairwise [] o = tt
  insertion_sort-Pairwise (x ∷ xs) o =
      insert_sorted-Pairwise x (insertion_sort xs)
        (IsOrder-sub (x ∷ xs) (x ∷ insertion_sort xs)
          (λ a m. elim m [ inl q ↦ inl q | inr n ↦ inr (Has-Perm a (insertion_sort-Perm xs) n) ]) o)
        (insertion_sort-Pairwise xs (IsOrder-sub (x ∷ xs) xs (λ a m. inr m) o))
