-- ===== src/Core/Checkpoint.antt =====
-- crates/thicket-core/src/checkpoint.rs
pub mod Replay
pub mod Positions
use Prim.Native.Char.{char}
use thicket_ai.Base.Decimal.{decimal}
use thicket_ai.Core.Data.{Error, serialization}
use thicket_ai.Core.Externals.{Writer, Reader}
use thicket_ai.Base.{
  Result, map_err, ℕ, String, ◌≡◌, Option, none, some, List, [], ◌∷◌, ◌++◌, Bytes, find, length,
  ◌==◌, String_eq,
}

pub record Step : Type 0 where
  pub key : String
  pub value : Bytes

pub record Checkpoint : Type 0 where
  pub run_id : Bytes
  pub steps : List Step

-- `Checkpoint::new`
unfoldable pub new_checkpoint : Bytes → Checkpoint
new_checkpoint run_id = record { run_id = run_id; steps = [] }

unfoldable pub value_of : Option Step → Option Bytes
value_of none = none
value_of (some s) = some s.value

unfoldable pub replay : Checkpoint → String → Option Bytes
unfolding value_of
replay c key = value_of (find (λ s. s.key == key) c.steps)

-- `Checkpoint::record`
unfoldable pub record_step : Checkpoint → String → Bytes → Checkpoint
unfolding replay
record_step c key value = elim (replay c key) [
  | none ↦ record c { steps = c.steps ++ (record { key = key; value = value } ∷ []) }
  | some _ ↦ c
]

-- `format!("#{}", n)`
unfoldable pub position : ℕ → String
position n = String.◌∷◌ (char 35 tt) (decimal n)

unfoldable pub next_key : Checkpoint → String
unfolding position
next_key c = position (length c.steps)

-- `Checkpoint::to_cbor` and `Checkpoint::from_cbor`
unfoldable pub checkpoint_to_cbor : Writer Checkpoint → Checkpoint → Result Error Bytes
checkpoint_to_cbor into_writer c = map_err serialization (into_writer c)

unfoldable pub checkpoint_from_cbor : Reader Checkpoint → Bytes → Result Error Checkpoint
checkpoint_from_cbor from_reader bytes = map_err serialization (from_reader bytes)
