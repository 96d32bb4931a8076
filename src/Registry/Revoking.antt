-- ===== src/Registry/Revoking.antt =====
-- Revocations in the registry.
use thicket_ai.Base.{ℕ, ◌≡◌, ◌≢◌, inl, inr, true, ok, arith, Result-cases, List_eq, ℕ_eq}
use thicket_ai.Base.Float.{Float}
use thicket_ai.Base.Dict
use thicket_ai.Core.{Kernel, ResourceId_eq, SignedRecord}
use thicket_ai.Core.Identity.{is_revoked, verify_working_key}
use thicket_ai.Core.Identity.Verify.{verify_working_key_sound, MaySign-not_revoked}
use thicket_ai.Core.Record.{verify_record}
use thicket_ai.Registry.{Embedder, Registry, register}

module _ (k : Kernel) {fl : Float} (embedder : Embedder fl) where
  -- No record signed by a revoked key is registered, whichever identity it belongs to and whoever
  -- had the key revoked.
  pub register-revoked :
      (reg : Registry fl) (r : SignedRecord) (now : ℕ) (reg' : Registry fl)
      → is_revoked reg.revocations r.signer_pub ≡ true
      → register k embedder reg r now ≢ ok reg'
  unfolding register verify_record
  register-revoked reg r now reg' revoked h =
      elim (Result-cases (
        verify_working_key k r.payload.root_public_key r.payload.id r.payload.keys r.signer_pub now
          reg.revocations)) [
            | inl (e, failed) ↦ ground arith
            | inr (u, passed) ↦
                let m =
                  verify_working_key_sound k r.payload.root_public_key r.payload.id r.payload.keys
                    r.signer_pub now reg.revocations passed in
                ground (arith, MaySign-not_revoked m)
          ]
