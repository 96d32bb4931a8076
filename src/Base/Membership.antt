-- ===== src/Base/Membership.antt =====
-- What the Boolean searches of Rust's iterators decide, as membership.
use mathlib.Core.Path.{◌≡◌, refl, sym}
use mathlib.Core.Bool.{Bool, true, false}
use mathlib.Core.List.{List, [], ◌∷◌}
use mathlib.Core.Logic.{◌↔◌, inl, inr}
use native.Mathlib.Omega.{arith}
use thicket_ai.Base.Tests.{Bool-cases}
use thicket_ai.Base.Lists.{Has, any, all, all-Has, all_of_Has}
use thicket_ai.Base.Equality.{Eq, ◌==◌, contains}

module _ {A : Type 0} where
  -- Some element of the list has the property.
  abbrev pub Some : (A → Type 0) → List A → Type 0
  Some P xs = (a : A) × Has a xs × P a

  any-Some : (p : A → Bool) (xs : List A) → any p xs ≡ true → Some (λ a. p a ≡ true) xs
  any-Some p [] h = ground arith
  any-Some p (x ∷ xs) h = elim (Bool-cases (p x)) [
    | inl passes ↦ (x, inl refl, passes)
    | inr fails ↦ let r = any-Some p xs (ground arith) in (r.0, inr r.1, r.2)
  ]

  any_of_Has : (p : A → Bool) (xs : List A) (a : A) → Has a xs → p a ≡ true → any p xs ≡ true
  any_of_Has p [] a m h = absurd m
  any_of_Has p (x ∷ xs) a (inl q) h = ground arith
  any_of_Has p (x ∷ xs) a (inr m) h = ground (arith, any_of_Has p xs a m h)

  -- `any` and `all` by what their tests decide.
  pub any_iff :
      (p : A → Bool) (P : A → Type 0)
      → ((a : A) → (p a ≡ true) ↔ P a)
      → (xs : List A) → (any p xs ≡ true) ↔ Some P xs
  any_iff p P decides xs = (
    (λ h. let r = any-Some p xs h in (r.0, r.1, (decides r.0).0 r.2)),
    (λ (a, m, holds). any_of_Has p xs a m ((decides a).1 holds)),
  )

  pub all_iff :
      (p : A → Bool) (P : A → Type 0)
      → ((a : A) → (p a ≡ true) ↔ P a)
      → (xs : List A) → (all p xs ≡ true) ↔ ((a : A) → Has a xs → P a)
  all_iff p P decides xs = (
    (λ h a m. (decides a).0 (all-Has p xs a h m)),
    (λ holds. all_of_Has p xs (λ a m. (decides a).1 (holds a m))),
  )

  pub contains_iff : ⦃e : Eq A⦄ → (xs : List A) (a : A) → (contains xs a ≡ true) ↔ Has a xs
  contains_iff [] a = ((λ h. ground arith), (λ m. absurd m))
  contains_iff ⦃e⦄ (x ∷ xs) a =
      let ih = contains_iff xs a in
      (
        (λ h. elim (Bool-cases (x == a)) [
          | inl same ↦ inl (sym ((e.same_iff x a).0 same))
          | inr other ↦ inr (ih.0 (ground arith))
        ]),
        (λ m. elim m [
          | inl q ↦ ground (arith, (e.same_iff x a).1 (sym q))
          | inr n ↦ ground (arith, ih.1 n)
        ]),
      )

  pub not_contains_iff : ⦃e : Eq A⦄ → (xs : List A) (a : A) → (contains xs a ≡ false) ↔ (¬ Has a xs)
  not_contains_iff xs a = ground (arith, contains_iff xs a)
