-- ===== src/Base/Decimal.antt =====
-- The decimal form of a number, as `format!("{}", n)` writes it, and that different numbers have
-- different ones.
use Prim.Native.Nat.{ℕ, zero, suc, ◌+◌, ◌-◌, ◌*◌, ◌/◌, ◌%◌, ◌≤◌, ◌<◌}
use Prim.Native.Char.{Char, char, code}
use Prim.Native.String.{String}
use mathlib.Core.Path.{◌≡◌, refl, sym, ap, ◌∙◌}
use mathlib.Core.Bool.{Bool, true, false}
use mathlib.Core.Logic.{inl, inr}
use native.Mathlib.Omega.{arith}
use thicket_ai.Base.Tests.{nat_eq, if◌then◌else◌, Bool-cases}

abbrev pub digit : ℕ → Char
digit d =
    if nat_eq d 0
    then char 48 tt
    else if nat_eq d 1
    then char 49 tt
    else if nat_eq d 2
    then char 50 tt
    else if nat_eq d 3
    then char 51 tt
    else if nat_eq d 4
    then char 52 tt
    else if nat_eq d 5
    then char 53 tt
    else if nat_eq d 6
    then char 54 tt
    else if nat_eq d 7
    then char 55 tt
    else if nat_eq d 8
    then char 56 tt
    else char 57 tt

code-if : (b : Bool) (x y : Char) → code (if b then x else y) ≡ (if b then code x else code y)
code-if true x y = refl
code-if false x y = refl

code-digit : (d : ℕ) → d < 10 → code (digit d) ≡ 48 + d
code-digit d h = simp code-if (ground (arith, h))

-- the digits of a number before `out`; it divides by ten at most as often as the number is high
unfoldable pub digits : ℕ → ℕ → String → String
digits zero n out = out
digits (suc rounds) n out = elim (nat_eq n 0) [
  | true ↦ out
  | false ↦ digits rounds (n / 10) (String.◌∷◌ (digit (n % 10)) out)
]

unfoldable pub decimal : ℕ → String
unfolding digits
decimal n = if nat_eq n 0 then "0" else digits n n ""

-- the number that a text writes, after the digits of `n`
abbrev scan : String → ℕ → ℕ
scan String.[] n = n
scan (String.◌∷◌ c s) n = scan s (n * 10 + (code c - 48))

scan-digits : (rounds n : ℕ) (out : String) → n ≤ rounds → scan (digits rounds n out) 0 ≡ scan out n
unfolding digits
scan-digits zero n out h = ap (scan out) (omega (arith, h))
scan-digits (suc rounds) n out h = elim (Bool-cases (nat_eq n 0)) [
  | inl z ↦ rw (z, digits) (ap (scan out) (ground (arith, z)))
  | inr p ↦
      rw (p, digits)
        (scan-digits rounds (n / 10) (String.◌∷◌ (digit (n % 10)) out) (ground (arith, h, p))
          ∙ ap (scan out) (omega (arith, code-digit (n % 10) (omega arith))))
]

scan-decimal : (n : ℕ) → scan (decimal n) 0 ≡ n
unfolding decimal
scan-decimal n = elim (Bool-cases (nat_eq n 0)) [
  | inl z ↦ rw (z, decimal) (ground (arith, z))
  | inr p ↦ rw (p, decimal) (scan-digits n n "" (omega arith))
]

pub decimal_injective : (m n : ℕ) → decimal m ≡ decimal n → m ≡ n
decimal_injective m n e = sym (scan-decimal m) ∙ ap (λ s. scan s 0) e ∙ scan-decimal n
