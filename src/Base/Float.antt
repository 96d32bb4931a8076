-- ===== src/Base/Float.antt =====
-- `f32`, by the operations that the code uses, and `sort_by` of slices. The sort is a field, since
-- its result is determined only where the comparison is a total order, which that of floats is not
-- where one is not a number.
use Prim.Native.Nat.{ℕ, zero, suc, Ordering}
use mathlib.Core.Bool.{Bool}
use mathlib.Core.List.{List, [], ◌∷◌}
use mathlib.Core.Option.{Option, none, some}

pub record Float : Type 1 where
  pub F32 : Type 0
  pub add : F32 → F32 → F32
  pub mul : F32 → F32 → F32
  pub div : F32 → F32 → F32
  pub max : F32 → F32 → F32
  pub sqrt : F32 → F32
  pub is_zero : F32 → Bool
  -- `a > b`
  pub above : F32 → F32 → Bool
  pub partial_cmp : F32 → F32 → Option Ordering
  pub from_u64 : ℕ → F32
  pub zero : F32
  pub one : F32
  pub half : F32
  -- `f32::MIN`
  pub lowest : F32
  -- `slice::sort_by`
  pub sort_by : {A : Type 0} → (A → A → Ordering) → List A → List A

-- `vec![0f32; n]`
abbrev pub zeros_of : (fl : Float) → ℕ → List fl.F32
zeros_of fl zero = []
zeros_of fl (suc n) = fl.zero ∷ zeros_of fl n

-- puts a number before a list that is there
abbrev pub cons_some : (fl : Float) → fl.F32 → Option (List fl.F32) → Option (List fl.F32)
cons_some fl x none = none
cons_some fl x (some xs) = some (x ∷ xs)

-- `partial_cmp(..).unwrap_or(Equal)`
abbrev pub or_equal : Option Ordering → Ordering
or_equal none = Ordering.eq
or_equal (some o) = o
