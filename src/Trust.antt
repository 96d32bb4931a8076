-- ===== src/Trust.antt =====
-- crates/thicket-trust/src: attestation.rs, reputation.rs and scoring.rs.
pub mod Attesting
pub mod Ledger
pub mod Sybil
use thicket_ai.Base.{
  ℕ, ◌+◌, ◌%◌, String, Bool, true, false, ◌&&◌, Option, none, some, List, [], ◌∷◌, ◌++◌, filter, ⊤,
  Result, ok, ◌>>=◌, ◌>>◌, map_err, Bytes, ltb, ◌==◌, u64_mod, if◌then◌else◌,
}
use thicket_ai.Base.Float.{Float}
use thicket_ai.Base.Dict
use thicket_ai.Base.Dict.{Dict}
use mathlib.Core.List.{foldl}
use thicket_ai.Core
use thicket_ai.Core.{Kernel, Writer, ResourceId, ResourceId_eq, WorkingKey, KeyEndorsement}
use thicket_ai.Core.Crypto.{signing_bytes, verify_signature}
use thicket_ai.Core.Identity.{RevocationSet, working_public, working_sign, verify_working_key}

-- The variants of the error type.
pub data TrustError : Type 0 where
  core : Core.Error → TrustError
  bad_attestation : TrustError

abbrev pub attest_domain : String
attest_domain = "thicket-attestation-v1"

pub record AttestView : Type 0 where
  pub subject : ResourceId
  pub claim : String
  pub score_bits : ℕ
  pub issued_at : ℕ
  pub attester : ResourceId

module _ (fl : Float) where
  pub record Attestation : Type 0 where
    pub subject : ResourceId
    pub claim : String
    pub score : fl.F32
    pub issued_at : ℕ
    pub attester : ResourceId
    pub attester_pub : Bytes
    pub sig : Bytes

  pub record ReputationLedger : Type 0 where
    pub outcomes : Dict ResourceId (ℕ × ℕ)
    pub attestations : List Attestation

  -- `ReputationLedger::new`
  abbrev pub new_ledger : ReputationLedger
  new_ledger = record { outcomes = []; attestations = [] }

-- `f32::to_bits` and the CBOR encoder at the view are parameters.
module _ (k : Kernel) {fl : Float} (to_bits : fl.F32 → ℕ) (write_attest : Writer AttestView) where
  -- `Attestation::issue`
  unfoldable pub attest :
      ResourceId
      → WorkingKey
      → ResourceId
      → String
      → fl.F32
      → ℕ
      → Result TrustError (Attestation fl)
  attest attester attester_working subject claim score now = do
    msg ← map_err core (
        signing_bytes write_attest attest_domain (record {
          subject = subject;
          claim = claim;
          score_bits = to_bits score;
          issued_at = now;
          attester = attester;
        }))
    ok (record {
      subject = subject;
      claim = claim;
      score = score;
      issued_at = now;
      attester = attester;
      attester_pub = working_public k attester_working;
      sig = working_sign k attester_working msg;
    })

  -- `Attestation::verify`
  unfoldable pub verify_attestation :
      Attestation fl → Bytes → List KeyEndorsement → ℕ → RevocationSet → Result TrustError ⊤
  verify_attestation a attester_root_pub attester_endorsements now revocations = do
    map_err core (
        verify_working_key k attester_root_pub a.attester attester_endorsements a.attester_pub now
          revocations)
    msg ← map_err core (
        signing_bytes write_attest attest_domain (record {
          subject = a.subject;
          claim = a.claim;
          score_bits = to_bits a.score;
          issued_at = a.issued_at;
          attester = a.attester;
        }))
    map_err (λ _. bad_attestation) (verify_signature k.crypto a.attester_pub msg a.sig)

abbrev pub or_zeros : Option (ℕ × ℕ) → ℕ × ℕ
or_zeros none = (0, 0)
or_zeros (some e) = e

-- `e.0 += 1` or `e.1 += 1`, which wrap in a release build
abbrev pub count_outcome : Bool → ℕ × ℕ → ℕ × ℕ
count_outcome true e = ((e.0 + 1) % u64_mod, e.1)
count_outcome false e = (e.0, (e.1 + 1) % u64_mod)

module _ (fl : Float) where
  -- the `match` on whether there are outcomes and vouches
  abbrev pub blend : Bool → Bool → fl.F32 → fl.F32 → fl.F32
  blend true true direct vouched = fl.add (fl.mul fl.half direct) (fl.mul fl.half vouched)
  blend true false direct vouched = direct
  blend false true direct vouched = vouched
  blend false false direct vouched = fl.zero

module _ {fl : Float} where
  unfoldable pub record_outcome : ReputationLedger fl → ResourceId → Bool → ReputationLedger fl
  record_outcome l id success = record l {
    outcomes =
        Dict.insert id (count_outcome success (or_zeros (Dict.get id l.outcomes))) l.outcomes;
  }

  unfoldable pub add_attestation : ReputationLedger fl → Attestation fl → ReputationLedger fl
  add_attestation l a = record l { attestations = l.attestations ++ a ∷ [] }

  unfoldable pub observations : ReputationLedger fl → ResourceId → ℕ
  observations l id = elim (Dict.get id l.outcomes) [ none ↦ 0 | some (s, f) ↦ (s + f) % u64_mod ]

  unfoldable pub outcome_score : ReputationLedger fl → ResourceId → fl.F32
  outcome_score l id = elim (Dict.get id l.outcomes) [
    | none ↦ fl.zero
    | some (s, f) ↦
        if ltb 0 ((s + f) % u64_mod)
        then fl.div (fl.from_u64 s) (fl.from_u64 ((s + f) % u64_mod))
        else fl.zero
  ]

  -- one round of the loop of `reputation`: numerator and denominator
  unfoldable pub weigh : ReputationLedger fl → fl.F32 × fl.F32 → Attestation fl → fl.F32 × fl.F32
  weigh l acc a = (
    fl.add acc.0 (fl.mul (outcome_score l a.attester) a.score),
    fl.add acc.1 (outcome_score l a.attester),
  )

  unfoldable pub vouches : ReputationLedger fl → ResourceId → fl.F32 × fl.F32
  vouches l id = foldl (weigh l) (fl.zero, fl.zero) (filter (λ a. a.subject == id) l.attestations)

  unfoldable pub reputation : ReputationLedger fl → ResourceId → fl.F32
  unfolding vouches
  reputation l id =
      let sums = vouches l id in
      let backed = fl.above sums.1 fl.zero in
      blend fl (ltb 0 (observations l id)) backed (outcome_score l id)
        (if backed then fl.div sums.0 sums.1 else fl.zero)

module _ (fl : Float) where
  pub record ScoreWeights : Type 0 where
    pub relevance : fl.F32
    pub reputation : fl.F32
    pub exploration : fl.F32

  -- `ScoreWeights::default`
  abbrev pub default_weights : ScoreWeights
  default_weights = record { relevance = fl.one; reputation = fl.half; exploration = fl.half }

  unfoldable pub exploration_bonus : ℕ → fl.F32
  exploration_bonus observations = fl.div fl.one (fl.add fl.one (fl.from_u64 observations))

  unfoldable pub score : fl.F32 → fl.F32 → ℕ → ScoreWeights → fl.F32
  unfolding exploration_bonus
  score relevance reputation observations w =
      fl.add (fl.add (fl.mul w.relevance relevance) (fl.mul w.reputation reputation))
        (fl.mul w.exploration (exploration_bonus observations))
