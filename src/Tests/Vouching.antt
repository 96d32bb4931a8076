-- ===== src/Tests/Vouching.antt =====
-- The theorem on attestations at concrete data.
use thicket_ai.Base.{ℕ, ◌≡◌, refl, [], ◌∷◌, ◌++◌, ok, as_bytes, ⊤, list_eq, arith}
use thicket_ai.Base.Dict
use thicket_ai.Core.{Writer}
use thicket_ai.Core.Crypto.{signing_bytes}
use thicket_ai.Core.Identity.{working_public, working_sign}
use thicket_ai.Trust.{
  attest_domain, AttestView, Attestation, ReputationLedger, outcome_score, reputation, attest,
}
use thicket_ai.Trust.Sybil.{ZeroLaws, add_attestations, reputation-add_attestations}
use thicket_ai.Tests.World.{toy_kernel, toy_sign, fit, whole, worker, worker_key, id, other_id}

abbrev write_view : Writer AttestView
write_view v = ok (v.score_bits ∷ v.issued_at ∷ v.subject.as_id_bytes)

abbrev same_bits : ℕ → ℕ
same_bits n = n

abbrev vouch : Attestation whole
vouch = record {
  subject = other_id;
  claim = "helpful";
  score = 1;
  issued_at = 14;
  attester = id;
  attester_pub = worker_key;
  sig = toy_sign worker_key (as_bytes attest_domain ++ 0 ∷ 1 ∷ 14 ∷ other_id.as_id_bytes);
}

attest_runs : attest toy_kernel same_bits write_view id worker other_id "helpful" 1 14 ≡ ok vouch
unfolding attest signing_bytes working_public working_sign fit
attest_runs = refl

abbrev pub whole_zero : ZeroLaws whole
whole_zero = record {
  IsFinite = λ s. ⊤;
  IsSum = λ x. ⊤;
  zero-IsSum = tt;
  add-IsSum = λ x y h. tt;
  add_zero = λ x h. omega arith;
  add-mul_zero = λ x s h q. omega arith;
}

abbrev ledger : ReputationLedger whole
ledger = record { outcomes = (id, (3, 1)) ∷ []; attestations = vouch ∷ [] }

-- an identity without outcomes praises itself
abbrev boast : Attestation whole
boast = record vouch { attester = other_id; score = 9 }

boast_weightless : outcome_score ledger boast.attester ≡ 0
unfolding outcome_score Dict.get fit list_eq
boast_weightless = refl

reputation-add_attestations_example :
    reputation (add_attestations ledger (boast ∷ boast ∷ [])) other_id ≡ reputation ledger other_id
reputation-add_attestations_example =
    reputation-add_attestations whole_zero ledger (boast ∷ boast ∷ []) other_id
      ((boast_weightless, tt), ((boast_weightless, tt), tt))
