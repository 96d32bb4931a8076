-- ===== src/Interconnect/Context.antt =====
-- `Context` of crates/thicket-interconnect/src/envelope.rs: a call's deadline and budget.
pub mod Tightening
use thicket_ai.Base.{ℕ, Bool, true, false, ◌&&◌, Option, none, some, Bytes, is_nil, ltb, min, ◌-◌}
use thicket_ai.Interconnect.Data.{Context}

abbrev is_none : {A : Type 0} → Option A → Bool
is_none none = true
is_none (some a) = false

-- `Context::is_empty`
unfoldable pub is_empty : Context → Bool
is_empty c =
    is_nil c.trace_id
    && (is_nil c.span_id
        && (is_nil c.parent_span_id
            && (is_none c.deadline && (is_none c.budget && is_none c.sink))))

-- the `match` on the two deadlines, with `Option::or` in its second arm
unfoldable pub tighter : Option ℕ → Option ℕ → Option ℕ
tighter (some a) (some b) = some (min a b)
tighter (some a) none = some a
tighter none b = b

-- `budget.map(|b| b.saturating_sub(spent))`
unfoldable pub debit : Option ℕ → ℕ → Option ℕ
debit none spent = none
debit (some b) spent = some (b - spent)

-- `Context::child`
unfoldable pub child : Context → Bytes → Option ℕ → ℕ → Context
unfolding tighter debit
child c new_span_id local_deadline spent = record {
  trace_id = c.trace_id;
  span_id = new_span_id;
  parent_span_id = c.span_id;
  deadline = tighter c.deadline local_deadline;
  budget = debit c.budget spent;
  sink = c.sink;
}

unfoldable pub deadline_passed : Context → ℕ → Bool
deadline_passed c now = elim c.deadline [ none ↦ false | some d ↦ ltb d now ]
