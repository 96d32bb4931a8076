-- ===== src/Tests/Signing.antt =====
-- The theorems on keys, records and checkpoints at concrete data.
use thicket_ai.Base.{◌≡◌, ◌↔◌, refl, [], ◌∷◌, ◌++◌, ok, as_bytes, Bytes, arith, list_eq, String_eq}
use thicket_ai.Core.Crypto.{signing_bytes, verify_raw}
use thicket_ai.Core.Crypto.Laws.{NulFree, signing_bytes-separates}
use thicket_ai.Core.Identity.{
  RevocationSet, no_revocations, is_revoked, endorse, root_id, working_public, working_sign,
  verify_working_key, verify_endorsement, from_root_public, endorse_domain,
}
use thicket_ai.Core.Identity.Verify.{MaySign, verify_working_key_iff, verify_working_key_first}
use thicket_ai.Core.Record.{sign_record, verify_record}
use thicket_ai.Core.Record.Signing.{sign_record_verifies}
use thicket_ai.Tests.World.{
  toy_kernel, toy_laws, fit, pack, doubled, root, worker, root_key, worker_key, id, endorsement,
  entry, entry_payload,
}

-- the worker's key is revoked
abbrev distrusted : RevocationSet
distrusted = record { keys = worker_key ∷ [] }

verifies :
    verify_working_key toy_kernel root_key id (endorsement 10 20 ∷ []) worker_key 15 no_revocations
    ≡ ok tt
unfolding verify_working_key from_root_public verify_endorsement verify_raw signing_bytes as_bytes
    fit pack doubled is_revoked list_eq
verifies = refl

genuine : verify_endorsement toy_kernel root_key (endorsement 10 20) ≡ ok tt
unfolding verify_endorsement verify_raw signing_bytes as_bytes fit pack doubled list_eq
genuine = refl

bound : from_root_public toy_kernel root_key ≡ ok id
unfolding from_root_public fit
bound = refl

root_id_runs : root_id toy_kernel root ≡ ok id
unfolding root_id fit
root_id_runs = refl

endorse_runs : endorse toy_kernel root worker_key 10 20 ≡ ok (endorsement 10 20)
unfolding endorse signing_bytes fit
endorse_runs = refl

pub worker_may :
    MaySign toy_kernel root_key id (endorsement 10 20 ∷ []) worker_key 15 no_revocations
worker_may =
    (verify_working_key_iff toy_kernel root_key id (endorsement 10 20 ∷ []) worker_key 15
        no_revocations).0
      verifies

verify_working_key_iff_example :
    (verify_working_key toy_kernel root_key id (endorsement 10 20 ∷ []) worker_key 15 no_revocations
      ≡ ok tt)
    ↔ MaySign toy_kernel root_key id (endorsement 10 20 ∷ []) worker_key 15 no_revocations
verify_working_key_iff_example =
    verify_working_key_iff toy_kernel root_key id (endorsement 10 20 ∷ []) worker_key 15
      no_revocations

verifies_early :
    verify_working_key toy_kernel root_key id (endorsement 10 20 ∷ []) worker_key 11 no_revocations
    ≡ ok tt
unfolding verify_working_key from_root_public verify_endorsement verify_raw signing_bytes as_bytes
    fit pack doubled is_revoked list_eq
verifies_early = refl

verify_working_key_first_example :
    verify_working_key toy_kernel root_key id
      (endorsement 10 20 ∷ endorsement 10 90 ∷ [])
      worker_key
      25
      no_revocations
    ≡ verify_working_key toy_kernel root_key id
        (endorsement 10 20 ∷ [])
        worker_key
        25
        no_revocations
verify_working_key_first_example =
    verify_working_key_first toy_kernel root_key id [] (endorsement 10 90 ∷ []) (endorsement 10 20)
      worker_key 25 no_revocations tt refl

endorse_domain-NulFree : NulFree endorse_domain
unfolding as_bytes
endorse_domain-NulFree = omega arith

abbrev message : Bytes
message = as_bytes endorse_domain ++ 0 ∷ 10 ∷ 20 ∷ worker_key

message_written :
    signing_bytes toy_kernel.write_endorsement endorse_domain
      (record { working_pub = worker_key; not_before = 10; not_after = 20 })
    ≡ ok message
unfolding signing_bytes
message_written = refl

signing_bytes-separates_example :
    (as_bytes endorse_domain ≡ as_bytes endorse_domain)
    × (toy_kernel.write_endorsement
          (record { working_pub = worker_key; not_before = 10; not_after = 20 })
        ≡ toy_kernel.write_endorsement
            (record { working_pub = worker_key; not_before = 10; not_after = 20 }))
signing_bytes-separates_example =
    signing_bytes-separates toy_kernel.write_endorsement toy_kernel.write_endorsement endorse_domain
      endorse_domain (record { working_pub = worker_key; not_before = 10; not_after = 20 })
      (record { working_pub = worker_key; not_before = 10; not_after = 20 }) message
      endorse_domain-NulFree endorse_domain-NulFree message_written message_written

sign_runs : sign_record toy_kernel (entry_payload 1) worker ≡ ok (entry 1)
unfolding sign_record signing_bytes fit working_public working_sign
sign_runs = refl

pub entry_verifies : verify_record toy_kernel (entry 1) 15 no_revocations ≡ ok tt
unfolding working_public fit
entry_verifies =
    sign_record_verifies toy_kernel toy_laws (entry_payload 1) worker (entry 1) 15 no_revocations
      sign_runs worker_may
