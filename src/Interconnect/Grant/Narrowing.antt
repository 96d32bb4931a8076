-- ===== src/Interconnect/Grant/Narrowing.antt =====
-- Narrowing of caveats: what `ensure_narrows` decides.
use thicket_ai.Base.{
  ◌≤◌, String, ◌≡◌, ◌↔◌, inl, inr, refl, Bool, true, false, List, [], ◌∷◌, some, ok, Has, any,
  contains, arith, String_eq, Option_eq, option_eq_iff, eq_refl,
}
use thicket_ai.Base.Dict
use thicket_ai.Base.Dict.{Dict, get-Has}
use thicket_ai.Interconnect.Data.{Caveats}
use thicket_ai.Interconnect.Grant.{allows_capability, is_foreign, is_loosened, ensure_narrows}
use text.Mathlib.TextEquality.{eq_iff}

-- The child permits no capability that the parent forbids, ends no later, and repeats every
-- constraint of the parent.
pub record Narrows (child parent : Caveats) : Type 0 where
  pub permits : (c : String) → allows_capability child c ≡ true → allows_capability parent c ≡ true
  pub ends : child.not_after ≤ parent.not_after
  pub repeats :
      (key value : String)
      → Has (key, value) parent.constraints
      → Dict.get key child.constraints ≡ some value

any_of_contains :
    (p : String → Bool) (xs : List String) (c : String)
    → contains xs c ≡ true
    → p c ≡ true
    → any p xs ≡ true
any_of_contains p [] c h t = ground arith
any_of_contains p (x ∷ xs) c h t = ground (arith, eq_iff x c, any_of_contains p xs c)

not_any :
    (p : String → Bool) (xs : List String)
    → ((c : String) → contains xs c ≡ true → p c ≡ false)
    → any p xs ≡ false
not_any p [] h = refl
not_any p (x ∷ xs) h = ground (arith, h x, eq_refl x, not_any p xs (λ c m. h c (ground arith)))

not_any_entry :
    (p : String × String → Bool) (xs : Dict String String)
    → ((e : String × String) → Has e xs → p e ≡ false)
    → any p xs ≡ false
not_any_entry p [] h = refl
not_any_entry p (x ∷ xs) h = rw (h x (inl refl)) (not_any_entry p xs (λ e m. h e (inr m)))

any_of_entry :
    (p : String × String → Bool) (xs : Dict String String) (e : String × String)
    → Has e xs
    → any p xs ≡ false
    → p e ≡ false
any_of_entry p [] e m h = absurd m
any_of_entry p (x ∷ xs) e (inl q) h = ground arith
any_of_entry p (x ∷ xs) e (inr m) h = any_of_entry p xs e m (ground arith)

module _ (child parent : Caveats) where
  narrows_permits :
      ensure_narrows child parent ≡ ok tt
      → (c : String) → allows_capability child c ≡ true
      → allows_capability parent c ≡ true
  unfolding ensure_narrows allows_capability is_foreign
  narrows_permits h c a = ground (
    arith,
    any_of_contains (is_foreign parent) child.capabilities c,
    any_of_contains (is_foreign parent) child.capabilities "*",
    eq_iff c "*",
    eq_refl {A = String} "*",
  )

  narrows_repeats :
      ensure_narrows child parent ≡ ok tt
      → (key value : String) → Has (key, value) parent.constraints
      → Dict.get key child.constraints ≡ some value
  unfolding ensure_narrows is_loosened
  narrows_repeats h key value m =
      let f = any_of_entry (is_loosened child) parent.constraints (key, value) m (ground arith) in
      (option_eq_iff (Dict.get key child.constraints) (some value)).0 (ground arith)

  no_foreign :
      Narrows child parent
      → contains parent.capabilities "*" ≡ false
      → any (is_foreign parent) child.capabilities ≡ false
  unfolding is_foreign allows_capability
  no_foreign n closed =
      not_any (is_foreign parent) child.capabilities
        (λ c m. ground (arith, n.permits c, eq_iff c "*", n.permits "*"))

  no_loosened : Narrows child parent → any (is_loosened child) parent.constraints ≡ false
  unfolding is_loosened
  no_loosened n =
      not_any_entry (is_loosened child) parent.constraints
        (λ e m. rw (n.repeats e.0 e.1 m) (ground (arith, eq_refl e.1)))

  -- The check accepts exactly the caveats that narrow.
  pub ensure_narrows_iff : (ensure_narrows child parent ≡ ok tt) ↔ Narrows child parent
  unfolding ensure_narrows
  ensure_narrows_iff = (
    (λ h. record { permits = narrows_permits h; ends = ground arith; repeats = narrows_repeats h }),
    (λ n. ground (arith, no_foreign n, no_loosened n)),
  )

-- Narrowing composes.
pub Narrows-trans : {a b c : Caveats} → Narrows a b → Narrows b c → Narrows a c
Narrows-trans {a} {b} {c} p q = record {
  permits = λ x h. q.permits x (p.permits x h);
  ends = ground (arith, p.ends, q.ends);
  repeats = λ k v m. p.repeats k v (get-Has k v b.constraints (q.repeats k v m));
}
