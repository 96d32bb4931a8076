-- ===== src/Core/Checkpoint/Replay.antt =====
-- What a checkpoint replays: the first value recorded under each key.
use thicket_ai.Base.{
  String, ◌≡◌, Option, none, some, List, [], ◌∷◌, ◌++◌, Bytes, find, ◌==◌, String_eq, if◌then◌else◌,
  arith,
}
use text.Mathlib.TextEquality.{eq_iff}
use thicket_ai.Core.Checkpoint.{Step, Checkpoint, value_of, replay, record_step}

-- the value that the first step with the key carries
abbrev first : String → List Step → Option Bytes
first key steps = value_of (find (λ s. s.key == key) steps)

first-append :
    (key k : String) (v : Bytes) (steps : List Step)
    → first k steps ≡ none
    → first key (steps ++ (record { key = k; value = v } ∷ []))
      ≡ (if k == key then some v else first key steps)
unfolding value_of
first-append key k v [] h = ground arith
first-append key k v (s ∷ steps) h =
    ground (arith, first-append key k v steps, eq_iff s.key k, eq_iff k key, eq_iff s.key key)

-- After recording a value under `k`, every key replays what it did before, and `k` replays the
-- value if it replayed nothing: the first value recorded under a key stays.
pub replay-record_step :
    (c : Checkpoint) (k : String) (v : Bytes) (key : String)
    → replay (record_step c k v) key
      ≡ (elim (replay c key) [ none ↦ if k == key then some v else none | some old ↦ some old ])
unfolding replay record_step
replay-record_step c k v key = ground (arith, first-append key k v c.steps, eq_iff k key)
