-- ===== src/Interconnect/Context/Tightening.antt =====
-- A child's deadline and budget only shrink.
use thicket_ai.Base.{
  ℕ, ◌+◌, ◌-◌, ◌≤◌, ◌≡◌, refl, true, Option, none, some, List, [], ◌∷◌, Bytes, arith,
}
use thicket_ai.Interconnect.Data.{Context}
use thicket_ai.Interconnect.Context.{child, deadline_passed}

-- The first limit is at least as tight as the second; `none` is no limit.
abbrev pub AsTight : Option ℕ → Option ℕ → Type 0
AsTight a none = Unit
AsTight none (some b) = ⊥
AsTight (some a) (some b) = a ≤ b

-- A child keeps the trace and the sink, has the parent's span as its parent span, and a deadline
-- that is as tight as the parent's and as the local one, and no tighter than both require; its
-- budget is as tight as the parent's.
pub child_tightens :
    (c : Context) (span : Bytes) (local : Option ℕ) (spent : ℕ)
    → let d = child c span local spent in
      (d.trace_id ≡ c.trace_id)
      × (d.sink ≡ c.sink)
      × (d.span_id ≡ span)
      × (d.parent_span_id ≡ c.span_id)
      × AsTight d.deadline c.deadline
      × AsTight d.deadline local
      × ((x : Option ℕ) → AsTight x c.deadline → AsTight x local → AsTight x d.deadline)
      × AsTight d.budget c.budget
unfolding child
child_tightens c span local spent =
    (refl, refl, refl, refl, ground arith, ground arith, (λ x p q. ground arith), ground arith)

-- One hop of a call chain: the new span, the local deadline and what has been spent.
pub record Hop : Type 0 where
  pub span : Bytes
  pub local : Option ℕ
  pub spent : ℕ

-- The context after a chain of downstream calls.
pub descend : Context → List Hop → Context
descend c [] = c
descend c (h ∷ hs) = descend (child c h.span h.local h.spent) hs

abbrev pub total_spent : List Hop → ℕ
total_spent [] = 0
total_spent (h ∷ hs) = h.spent + total_spent hs

passed_child :
    (c : Context) (h : Hop) (now : ℕ)
    → deadline_passed c now ≡ true
    → deadline_passed (child c h.span h.local h.spent) now ≡ true
unfolding child deadline_passed
passed_child c h now e = ground arith

passed :
    (c : Context) (hops : List Hop) (now : ℕ)
    → deadline_passed c now ≡ true
    → deadline_passed (descend c hops) now ≡ true
unfolding descend
passed c [] now e = e
passed c (h ∷ hs) now e = passed (child c h.span h.local h.spent) hs now (passed_child c h now e)

budget_child :
    (c : Context) (h : Hop) (b : ℕ)
    → c.budget ≡ some b
    → (child c h.span h.local h.spent).budget ≡ some (b - h.spent)
unfolding child
budget_child c h b e = ground arith

spent_down :
    (c : Context) (hops : List Hop) (b : ℕ)
    → c.budget ≡ some b
    → (descend c hops).budget ≡ some (b - total_spent hops)
unfolding descend
spent_down c [] b e = ground arith
spent_down c (h ∷ hs) b e =
    let r = spent_down (child c h.span h.local h.spent) hs (b - h.spent) (budget_child c h b e) in
    ground arith

-- Down a chain of calls of any length, a deadline that has passed for the initiator has passed for
-- the last call, and the last call's budget is the initiator's less all that was spent, which
-- stops at zero.
pub descend_bounds :
    (c : Context) (hops : List Hop) (now : ℕ)
    → (deadline_passed c now ≡ true → deadline_passed (descend c hops) now ≡ true)
      × ((b : ℕ) → c.budget ≡ some b → (descend c hops).budget ≡ some (b - total_spent hops))
descend_bounds c hops now = (passed c hops now, spent_down c hops)
