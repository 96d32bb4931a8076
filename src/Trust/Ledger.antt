-- ===== src/Trust/Ledger.antt =====
-- What the ledger keeps of outcomes.
use thicket_ai.Base.{ℕ, ◌+◌, ◌%◌, ◌<◌, ◌≡◌, ◌≢◌, refl, Bool, true, false, some, arith, u64_mod}
use thicket_ai.Base.Float.{Float}
use thicket_ai.Base.Dict
use thicket_ai.Base.Dict.{get-insert_self, get-insert_ne}
use thicket_ai.Core.{ResourceId, ResourceId_eq}
use thicket_ai.Trust.{ReputationLedger, record_outcome, observations, or_zeros, count_outcome}

counted :
    (success : Bool) (s f : ℕ)
    → s + f + 1 < u64_mod
    → ((count_outcome success (s, f)).0 + (count_outcome success (s, f)).1) % u64_mod
      ≡ (s + f) % u64_mod + 1
counted true s f h = omega arith
counted false s f h = omega arith

module _ {fl : Float} where
  -- An outcome adds one observation of its id, below 2^64, and none of another id.
  pub observations-record_outcome :
      (l : ReputationLedger fl) (id other : ResourceId) (success : Bool) (s f : ℕ)
      → Dict.get id l.outcomes ≡ some (s, f)
      → s + f + 1 < u64_mod
      → other ≢ id
      → (observations (record_outcome l id success) id ≡ observations l id + 1)
        × (observations (record_outcome l id success) other ≡ observations l other)
  unfolding observations record_outcome
  observations-record_outcome l id other success s f found small ne =
      let e = count_outcome success (or_zeros (Dict.get id l.outcomes)) in
      (
        rw (found, get-insert_self id (count_outcome success (s, f)) l.outcomes, observations)
            (counted success s f small),
        rw (get-insert_ne id other e l.outcomes ne, observations) refl,
      )
