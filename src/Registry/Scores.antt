-- ===== src/Registry/Scores.antt =====
-- The order of the results of a search, by their scores.
use Prim.Native.Nat.{Ordering}
use thicket_ai.Base.{◌≡◌, ◌≢◌, refl, sym, Option, none, some, List, Has, arith}
use thicket_ai.Base.Float.{Float, or_equal}
use thicket_ai.Base.Sorting.{reverse, IsOrder}
use thicket_ai.Registry.{by_score}

-- IEEE 754: `partial_cmp` orders the values that are numbers.
pub record NumberOrder (fl : Float) : Type 1 where
  pub IsNumber : fl.F32 → Type 0
  pub flips :
      (a b : fl.F32)
      → IsNumber a
      → IsNumber b
      → (o : Ordering) × (fl.partial_cmp a b ≡ some o) × (fl.partial_cmp b a ≡ some (reverse o))
  pub trans :
      (a b c : fl.F32)
      → IsNumber a
      → IsNumber b
      → IsNumber c
      → fl.partial_cmp a b ≢ some Ordering.gt
      → fl.partial_cmp b c ≢ some Ordering.gt
      → fl.partial_cmp a c ≢ some Ordering.gt

reverse-reverse : (o : Ordering) → reverse (reverse o) ≡ o
reverse-reverse Ordering.lt = refl
reverse-reverse Ordering.eq = refl
reverse-reverse Ordering.gt = refl

or_equal-ne : (x : Option Ordering) → or_equal x ≢ Ordering.gt → x ≢ some Ordering.gt
or_equal-ne none h q = ground arith
or_equal-ne (some o) h q = ground arith

or_equal_ne : (x : Option Ordering) → x ≢ some Ordering.gt → or_equal x ≢ Ordering.gt
or_equal_ne none h q = ground arith
or_equal_ne (some o) h q = ground arith

module _ (fl : Float) {A : Type 0} where
  pub by_score-NotAbove :
      (p q : fl.F32 × A) → by_score fl p q ≢ Ordering.gt → fl.partial_cmp q.0 p.0 ≢ some Ordering.gt
  unfolding by_score
  by_score-NotAbove p q h = or_equal-ne (fl.partial_cmp q.0 p.0) h

  pub by_score-IsOrder :
      (order : NumberOrder fl) (ps : List (fl.F32 × A))
      → ((p : fl.F32 × A) → Has p ps → order.IsNumber p.0)
      → IsOrder (by_score fl) ps
  unfolding by_score
  by_score-IsOrder order ps numbers = record {
    flips = λ p q m n.
        let f = order.flips p.0 q.0 (numbers p m) (numbers q n) in
        rw (f.1, f.2) (sym (reverse-reverse f.0));
    trans = λ p q r m n l a b. or_equal_ne (fl.partial_cmp r.0 p.0) (
        order.trans r.0 q.0 p.0 (numbers r l) (numbers q n) (numbers p m)
          (or_equal-ne (fl.partial_cmp r.0 q.0) b) (or_equal-ne (fl.partial_cmp q.0 p.0) a));
  }
