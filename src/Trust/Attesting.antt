-- ===== src/Trust/Attesting.antt =====
-- Issuing and verifying attestations.
use thicket_ai.Base.{ℕ, ◌≡◌, String, List, ok, Bytes, arith, Result-cases, inl, inr}
use thicket_ai.Base.Float.{Float}
use thicket_ai.Core.{Kernel, Writer, ResourceId, WorkingKey, KeyEndorsement, PrimitiveLaws}
use thicket_ai.Core.Crypto.{signing_bytes, verify_signature}
use thicket_ai.Core.Crypto.Laws.{verify_raw-sign}
use thicket_ai.Core.Identity.{RevocationSet, working_public, working_sign}
use thicket_ai.Core.Identity.Verify.{MaySign, verify_working_key_complete}
use thicket_ai.Trust.{attest_domain, AttestView, Attestation, attest, verify_attestation}

module _ (k : Kernel) {fl : Float} (to_bits : fl.F32 → ℕ) (write_attest : Writer AttestView) where
  -- An attestation by a key that may sign for the attester verifies, at any time at which the key
  -- may sign.
  pub attest_verifies :
      (laws : PrimitiveLaws k.crypto) (attester : ResourceId) (working : WorkingKey)
      (subject : ResourceId) (claim : String) (score : fl.F32) (issued now : ℕ) (a : Attestation fl)
      (root_pub : Bytes) (es : List KeyEndorsement) (revs : RevocationSet)
      → attest k to_bits write_attest attester working subject claim score issued ≡ ok a
      → MaySign k root_pub attester es (working_public k working) now revs
      → verify_attestation k to_bits write_attest a root_pub es now revs ≡ ok tt
  unfolding attest verify_attestation verify_signature working_public working_sign
  attest_verifies laws attester working subject claim score issued now a root_pub es revs h may =
      elim (Result-cases (
        signing_bytes write_attest attest_domain (record {
          subject = subject;
          claim = claim;
          score_bits = to_bits score;
          issued_at = issued;
          attester = attester;
        }))) [
          | inl (e, failed) ↦ absurd (ground arith)
          | inr (m, written) ↦ ground (
            arith,
            verify_raw-sign k.crypto laws working.signing m,
            verify_working_key_complete k root_pub attester es (k.verifying_key working.signing) now
                revs may,
          )
        ]
