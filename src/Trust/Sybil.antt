-- ===== src/Trust/Sybil.antt =====
-- What attestations by identities without a good outcome do to a reputation.
use thicket_ai.Base.{
  ◌≡◌, refl, ap, sym, ◌∙◌, inl, inr, Bool, List, [], ◌∷◌, ◌++◌, filter, All, ltb, ◌==◌, Bool-cases,
  if◌then◌else◌,
}
use mathlib.Core.List.{foldl, append_assoc, append-nil}
use thicket_ai.Base.Float.{Float}
use thicket_ai.Core.{ResourceId, ResourceId_eq}
use thicket_ai.Trust.{
  Attestation, ReputationLedger, add_attestation, observations, outcome_score, weigh, vouches,
  reputation, blend,
}

-- Addition of a zero, in IEEE 754: a sum that starts from zero is never the negative zero, and such
-- a number stays what it is when zero, or zero times a finite number, is added.
pub record ZeroLaws (fl : Float) : Type 1 where
  pub IsFinite : fl.F32 → Type 0
  pub IsSum : fl.F32 → Type 0
  pub zero-IsSum : IsSum fl.zero
  pub add-IsSum : (x y : fl.F32) → IsSum x → IsSum (fl.add x y)
  pub add_zero : (x : fl.F32) → IsSum x → fl.add x fl.zero ≡ x
  pub add-mul_zero : (x s : fl.F32) → IsSum x → IsFinite s → fl.add x (fl.mul fl.zero s) ≡ x

module _ {fl : Float} where
  -- the ledger after more attestations
  unfoldable pub add_attestations :
      ReputationLedger fl → List (Attestation fl) → ReputationLedger fl
  add_attestations l [] = l
  add_attestations l (a ∷ rest) = add_attestations (add_attestation l a) rest

  added :
      (l : ReputationLedger fl) (more : List (Attestation fl))
      → add_attestations l more ≡ record l { attestations = l.attestations ++ more }
  unfolding add_attestations add_attestation
  added l [] = ap (λ xs. record l { attestations = xs }) (sym (append-nil l.attestations))
  added l (a ∷ rest) =
      added (add_attestation l a) rest
      ∙ ap (λ xs. record l { attestations = xs }) (append_assoc l.attestations (a ∷ []) rest)

  module _ (laws : ZeroLaws fl) where
    -- An attestation that counts for nothing: a finite score from an attester whose own outcome
    -- score is zero.
    abbrev pub Weightless : ReputationLedger fl → Attestation fl → Type 0
    Weightless l a = (outcome_score l a.attester ≡ fl.zero) × laws.IsFinite a.score

    Summed : fl.F32 × fl.F32 → Type 0
    Summed acc = laws.IsSum acc.0 × laws.IsSum acc.1

    weigh_zero :
        (l : ReputationLedger fl) (acc : fl.F32 × fl.F32) (a : Attestation fl)
        → Summed acc
        → Weightless l a
        → weigh l acc a ≡ acc
    unfolding weigh Summed
    weigh_zero l acc a s z = rw z.0 (
        ap (λ x. (x, fl.add acc.1 fl.zero)) (laws.add-mul_zero acc.0 a.score s.0 z.1)
        ∙ ap (λ x. (acc.0, x)) (laws.add_zero acc.1 s.1))

    weigh-Summed :
        (l : ReputationLedger fl) (acc : fl.F32 × fl.F32) (a : Attestation fl)
        → Summed acc
        → Summed (weigh l acc a)
    unfolding weigh Summed
    weigh-Summed l acc a s = (laws.add-IsSum acc.0 _ s.0, laws.add-IsSum acc.1 _ s.1)

    sums-Weightless :
        (l : ReputationLedger fl) (p : Attestation fl → Bool) (acc : fl.F32 × fl.F32)
        (more : List (Attestation fl))
        → Summed acc
        → All (Weightless l) more
        → foldl (weigh l) acc (filter p more) ≡ acc
    sums-Weightless l p acc [] s z = refl
    sums-Weightless l p acc (a ∷ more) s z = elim (Bool-cases (p a)) [
      | inl counts ↦ rw counts (
          ap (λ x. foldl (weigh l) x (filter p more)) (weigh_zero l acc a s z.0)
          ∙ sums-Weightless l p acc more s z.1)
      | inr other ↦ rw other (sums-Weightless l p acc more s z.1)
    ]

    sums_same :
        (l : ReputationLedger fl) (p : Attestation fl → Bool) (acc : fl.F32 × fl.F32)
        (xs more : List (Attestation fl))
        → Summed acc
        → All (Weightless l) more
        → foldl (weigh l) acc (filter p (xs ++ more)) ≡ foldl (weigh l) acc (filter p xs)
    sums_same l p acc [] more s z = sums-Weightless l p acc more s z
    sums_same l p acc (a ∷ xs) more s z = elim (Bool-cases (p a)) [
      | inl counts ↦ rw counts (sums_same l p (weigh l acc a) xs more (weigh-Summed l acc a s) z)
      | inr other ↦ rw other (sums_same l p acc xs more s z)
    ]

    -- A swarm carries no weight: any number of attestations with finite scores, about anyone, by
    -- attesters whose own outcome score is zero, as that of every identity without outcomes is,
    -- leave every reputation as it is. A score that is not finite is not covered: zero times it is
    -- not a number.
    pub reputation-add_attestations :
        (l : ReputationLedger fl) (swarm : List (Attestation fl)) (id : ResourceId)
        → All (Weightless l) swarm
        → reputation (add_attestations l swarm) id ≡ reputation l id
    unfolding reputation vouches observations outcome_score weigh Summed
    reputation-add_attestations l swarm id z = rw (added l swarm) (
        ap
          (λ sums.
            blend fl (ltb 0 (observations l id)) (fl.above sums.1 fl.zero) (outcome_score l id)
              (if fl.above sums.1 fl.zero then fl.div sums.0 sums.1 else fl.zero))
          (sums_same l (λ a. a.subject == id) (fl.zero, fl.zero) l.attestations swarm
            (laws.zero-IsSum, laws.zero-IsSum) z))
