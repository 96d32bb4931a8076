-- ===== src/Tests/Catalog.antt =====
-- The theorems on the registry at concrete data.
use Prim.Native.Nat.{Ordering}
use mathlib.Core.List.{Permᴰ}
use thicket_ai.Base.{
  ℕ, ◌≤◌, ◌<◌, ◌≡◌, ◌≢◌, refl, List, [], ◌∷◌, ◌++◌, some, ok, arith, Has, All, min, inl, inr,
  list_eq, length, map, as_bytes,
}
use thicket_ai.Base.Dict
use thicket_ai.Base.Sorting.{Pairwise}
use thicket_ai.Core.{ResourceId, ResourceId_eq, Revocation, SignedRecord}
use thicket_ai.Core.Identity.{no_revocations, is_revoked, revoke_domain}
use thicket_ai.Core.Record.{verify_record}
use thicket_ai.Registry
use thicket_ai.Registry.{
  Need, Stored, Registry, stale, not_found, new_registry, new_need, to_stored, is_stale,
  lease_expired, kind_matches, tags_match, register, resolve, search, candidates, by_score,
  best_capability_score,
}
use thicket_ai.Registry.Publishing.{Holds, register_sound, resolve-register}
use thicket_ai.Registry.Discovery.{
  Qualifies, search_sound, search_complete, match_score, scored, search_ranks,
}
use thicket_ai.Registry.Revoking.{register-revoked}
use thicket_ai.Registry.Invariant.{IsConsistent, registers, Reach, start, next, Reach-IsConsistent}
use thicket_ai.Tests.World.{
  toy_kernel, toy_sign, fit, whole, by_length, whole_sorts, whole_order, root_key, worker_key, id,
  entry,
}
use thicket_ai.Tests.Signing.{entry_verifies}

abbrev pub stored : Stored whole
stored = record { entry = entry 1; cap_embeddings = (5 ∷ []) ∷ [] }

abbrev pub catalog : Registry whole
catalog = record { store = (id, stored) ∷ []; revocations = no_revocations }

pub register_runs : register toy_kernel by_length (new_registry whole) (entry 1) 15 ≡ ok catalog
unfolding register is_stale to_stored Dict.get Dict.insert as_bytes
register_runs = rw entry_verifies refl

pub found : Dict.get id catalog.store ≡ some stored
unfolding Dict.get list_eq fit
found = refl

register_sound_example :
    (verify_record toy_kernel (entry 1) 15 no_revocations ≡ ok tt)
    × ((old : Stored whole)
        → Holds toy_kernel by_length (new_registry whole) id old
        → old.entry.payload.version < 1)
    × Holds toy_kernel by_length catalog id (to_stored toy_kernel by_length (entry 1))
    × ((i : ResourceId) → i ≢ id → Dict.get i catalog.store ≡ Dict.get i (new_registry whole).store)
    × (catalog.revocations ≡ no_revocations)
register_sound_example =
    register_sound toy_kernel by_length (new_registry whole) (entry 1) 15 catalog register_runs

pub resolves : resolve toy_kernel by_length catalog id 15 ≡ ok (entry 1)
unfolding lease_expired
resolves =
    resolve-register toy_kernel by_length (new_registry whole) (entry 1) 15 catalog register_runs
      (λ q. ground arith) refl

pub reached : Reach toy_kernel by_length catalog
reached = next start (registers (entry 1) 15 register_runs)

Reach-IsConsistent_example : IsConsistent catalog
Reach-IsConsistent_example = Reach-IsConsistent toy_kernel by_length reached

abbrev need : Need
need = record { intent_text = "talk"; kind = some "chat"; tags = "en" ∷ []; top_k = 5 }

qualified : Qualifies toy_kernel by_length catalog need 15 stored
qualified = record {
  id = id;
  stored = inl refl;
  open_to_all = refl;
  live = omega arith;
  fits_kind = inr (_, inl refl, refl);
  tagged = ((_, inl refl, inl refl), tt);
}

room : length (candidates toy_kernel by_length catalog need 15) ≤ 5
unfolding candidates lease_expired kind_matches tags_match
room = omega arith

search_sound_example :
    (length (search toy_kernel by_length catalog need 15) ≤ need.top_k)
    × ((r : SignedRecord)
        → Has r (search toy_kernel by_length catalog need 15)
        → (s : Stored whole) × Qualifies toy_kernel by_length catalog need 15 s × (r ≡ s.entry))
search_sound_example = search_sound toy_kernel by_length whole_sorts catalog need 15

search_complete_example : Has (entry 1) (search toy_kernel by_length catalog need 15)
search_complete_example =
    search_complete toy_kernel by_length whole_sorts catalog need 15 stored room qualified

numbers :
    (xs : List (Stored whole))
    → All (λ s. whole_order.IsNumber (match_score toy_kernel by_length need s)) xs
numbers [] = tt
numbers (x ∷ xs) = (tt, numbers xs)

search_ranks_example :
    (results cut : List (ℕ × Stored whole)) × (search toy_kernel by_length catalog need 15
      ≡ map (λ p. p.1.entry) results)
    × (length results ≡ min 5 (length (candidates toy_kernel by_length catalog need 15)))
    × Permᴰ (results ++ cut) (scored toy_kernel by_length catalog need 15)
    × Pairwise (λ p q. whole.partial_cmp q.0 p.0 ≢ some Ordering.gt) (results ++ cut)
search_ranks_example =
    search_ranks toy_kernel by_length whole_sorts whole_order catalog need 15
      (numbers (candidates toy_kernel by_length catalog need 15))

abbrev revocation : Revocation
revocation = record {
  working_pub = worker_key;
  issued_at = 14;
  root_sig = toy_sign root_key (as_bytes revoke_domain ++ 0 ∷ 14 ∷ worker_key);
}

abbrev emptied : Registry whole
emptied = record { store = []; revocations = record { keys = worker_key ∷ [] } }

register-revoked_example : register toy_kernel by_length emptied (entry 2) 15 ≢ ok catalog
unfolding is_revoked list_eq fit
register-revoked_example = register-revoked toy_kernel by_length emptied (entry 2) 15 catalog refl
