-- ===== src/Core/Record/Signing.antt =====
-- A record verifies when its signer may sign and has signed it.
use thicket_ai.Base.{ℕ, ◌≡◌, ok, arith, Result-cases, inl, inr}
use thicket_ai.Core.Data.{WorkingKey, RecordPayload, SignedRecord}
use thicket_ai.Core.Externals.{Kernel, PrimitiveLaws}
use thicket_ai.Core.Crypto.{signing_bytes}
use thicket_ai.Core.Crypto.Laws.{verify_raw-sign}
use thicket_ai.Core.Identity.{RevocationSet, working_public, working_sign}
use thicket_ai.Core.Identity.Verify.{MaySign, verify_working_key_complete}
use thicket_ai.Core.Record.{record_domain, sign_record, verify_record}

-- A record that a working key has signed verifies for every time and every set of revocations for
-- which that key may sign for the record's identity.
pub sign_record_verifies :
    (k : Kernel) (laws : PrimitiveLaws k.crypto) (payload : RecordPayload) (working : WorkingKey)
    (r : SignedRecord) (now : ℕ) (revs : RevocationSet)
    → sign_record k payload working ≡ ok r
    → MaySign k payload.root_public_key payload.id payload.keys (working_public k working) now revs
    → verify_record k r now revs ≡ ok tt
unfolding sign_record verify_record working_public working_sign
sign_record_verifies k laws payload working r now revs h may =
    elim (Result-cases (signing_bytes k.write_record record_domain payload)) [
      | inl (e, failed) ↦ absurd (ground arith)
      | inr (m, written) ↦ ground (
        arith,
        verify_raw-sign k.crypto laws working.signing m,
        verify_working_key_complete k payload.root_public_key payload.id payload.keys
            (k.verifying_key working.signing) now revs may,
      )
    ]
