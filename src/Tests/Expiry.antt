-- ===== src/Tests/Expiry.antt =====
-- The theorems on leases, renewals and withdrawals at concrete data.
use thicket_ai.Base.{
  ℕ, ap, List, [], ◌∷◌, ◌<◌, ◌≡◌, ◌≢◌, refl, true, some, ok, err, arith, eq_refl, List_eq, ℕ_eq,
}
use thicket_ai.Base.Dict
use thicket_ai.Core.{ResourceId_eq, Lease}
use thicket_ai.Core.Crypto.{signing_bytes}
use thicket_ai.Core.Identity.{RevocationSet}
use thicket_ai.Core.Record.{record_signing_input, verify_record}
use thicket_ai.Registry.{Stored, Registry, not_found, new_registry, resolve, renew, renewed_lease}
use thicket_ai.Registry.Abstract.{
  Call, registers, resolves, renews, deregisters, sweeps, asks_empty, counts, lists, PromisedAll,
  apply_all,
}
use thicket_ai.Registry.Abstract.View.{view}
use thicket_ai.Registry.Abstract.Refinement.{apply_all-PromisedAll}
use thicket_ai.Registry.Invariant.{start, Reach-IsConsistent}
use thicket_ai.Registry.Leases.{renew_overflow}
use thicket_ai.Registry.Renewal.{renew_unverifiable}
use thicket_ai.Tests.World.{
  toy_kernel, fit, whole, by_length, worker_key, id, lease, entry, entry_message,
}
use thicket_ai.Tests.Primitives.{toy_once, shows_lease}
use thicket_ai.Tests.Catalog.{stored, catalog, found}

renew_overflow_example :
    (expiry : ℕ) × (reg' : Registry whole) × (renew toy_kernel by_length catalog id 15
        18446744073709551610
      ≡ ok (expiry, reg'))
    × (expiry < 15)
    × (resolve toy_kernel by_length reg' id 15 ≡ err not_found)
renew_overflow_example =
    renew_overflow toy_kernel by_length catalog id 15 18446744073709551610 stored lease found refl
      (omega arith) (omega arith) (omega arith)

input_runs : record_signing_input toy_kernel (entry 1).payload ≡ ok (entry_message 1)
unfolding record_signing_input signing_bytes fit
input_runs = refl

genuine : toy_kernel.vk_verify worker_key (entry_message 1) (entry 1).signature ≡ true
genuine = eq_refl (entry 1).signature

-- In the second of its registration, the record is renewed for a shorter time.
shortened : lease ≢ renewed_lease toy_kernel by_length 10 50
unfolding renewed_lease
shortened q = absurd (omega (arith, ap (λ (l : Lease). l.ttl) q))

renew_unverifiable_example :
    (expiry : ℕ) × (reg' : Registry whole) × (s' : Stored whole) × (renew toy_kernel by_length
        catalog id 10 50
      ≡ ok (expiry, reg'))
    × (Dict.get id reg'.store ≡ some s')
    × ((t : ℕ) (revs : RevocationSet) → verify_record toy_kernel s'.entry t revs ≢ ok tt)
renew_unverifiable_example =
    renew_unverifiable toy_kernel by_length catalog id 10 50 stored lease (entry_message 1) found
      refl input_runs shows_lease
      (λ m h. toy_once worker_key (entry 1).signature m (entry_message 1) h genuine) shortened

abbrev calls : List Call
calls =
    registers (entry 1) 15
    ∷ resolves id 15
    ∷ renews id 15 100
    ∷ counts
    ∷ lists 16
    ∷ sweeps 116
    ∷ asks_empty
    ∷ resolves id 16
    ∷ deregisters id
    ∷ []

apply_all-PromisedAll_example :
    PromisedAll toy_kernel calls
      (view (new_registry whole))
      (apply_all toy_kernel by_length calls (new_registry whole)).0
      (view (apply_all toy_kernel by_length calls (new_registry whole)).1)
apply_all-PromisedAll_example =
    apply_all-PromisedAll toy_kernel by_length calls (new_registry whole)
      (Reach-IsConsistent toy_kernel by_length start)
