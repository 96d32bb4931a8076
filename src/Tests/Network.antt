-- ===== src/Tests/Network.antt =====
-- The theorems on the federation at concrete data.
use thicket_ai.Base.{
  ℕ, ◌≤◌, ◌<◌, ◌≡◌, ◌≢◌, ◌⊎◌, refl, [], ◌∷◌, Option, none, some, ok, Has, inl, inr, length, ap,
}
use thicket_ai.Base.Dict
use thicket_ai.Base.Sorting.{Pairwise}
use thicket_ai.Core.{ResourceId_eq, SignedRecord}
use thicket_ai.Core.Identity.{no_revocations}
use thicket_ai.Core.Record.{verify_record}
use thicket_ai.Registry.{Need, new_need, id_of, Registry}
use thicket_ai.Registry.Invariant.{Reach}
use thicket_ai.Federation.{
  Peer, Federation, registry_peer, at, answers, select_peers, remember, federated_search,
  federated_resolve,
}
use thicket_ai.Federation.Search.{federated_search_sound}
use thicket_ai.Federation.Resolve.{
  FromPeer, first_answer, federated_resolve_sound, Filed, federated_resolve_bound,
}
use thicket_ai.Tests.World.{toy_kernel, whole_sorts, whole, by_length, id, entry}
use thicket_ai.Tests.Signing.{entry_verifies}
use thicket_ai.Tests.Catalog.{catalog, reached, resolves}

abbrev federation : Federation whole
federation = record {
  peers = registry_peer toy_kernel by_length catalog ∷ [];
  profiles = record { centroid = 5 ∷ []; kinds = "agent" ∷ []; tags = "en" ∷ []; count = 1 } ∷ [];
  cache = [];
  default_ttl = 300;
  max_peers = 4;
}

abbrev need : Need
unfolding new_need
need = new_need "talk" 5

federated_search_sound_example :
    (length (federated_search toy_kernel by_length federation need 15) ≤ need.top_k)
    × Pairwise
        (λ r r'. id_of r ≢ id_of r')
        (federated_search toy_kernel by_length federation need 15)
    × ((r : SignedRecord)
        → Has r (federated_search toy_kernel by_length federation need 15)
        → (verify_record toy_kernel r 15 no_revocations ≡ ok tt)
          × ((i : ℕ) (x : SignedRecord)
              → Has i (select_peers toy_kernel by_length federation need.intent_text)
              → Has x (answers toy_kernel by_length (at federation.peers i) need 15)
              → verify_record toy_kernel x 15 no_revocations ≡ ok tt
              → id_of x ≡ id_of r
              → x.payload.version ≤ r.payload.version))
federated_search_sound_example =
    federated_search_sound toy_kernel by_length 15 federation need whole_sorts

cold_cache : Dict.get id federation.cache ≡ none
unfolding Dict.get
cold_cache = refl

answered : (registry_peer toy_kernel by_length catalog).peer_resolve id 15 ≡ some (entry 1)
unfolding registry_peer
answered = rw resolves refl

resolve_runs : (federated_resolve toy_kernel by_length federation id 15).0 ≡ some (entry 1)
resolve_runs =
    ap (λ (x : Option SignedRecord × Federation whole). x.0)
      (first_answer toy_kernel by_length federation id 15
        (registry_peer toy_kernel by_length catalog) [] (entry 1) refl cold_cache answered
        entry_verifies)

federated_resolve_sound_example :
    ((expires : ℕ) × (Dict.get id federation.cache ≡ some (entry 1, expires)) × (15 < expires))
    ⊎ (FromPeer toy_kernel by_length federation.peers id 15 (entry 1)
        × ((federated_resolve toy_kernel by_length federation id 15).1
            ≡ remember toy_kernel by_length federation id (entry 1) 15))
federated_resolve_sound_example =
    federated_resolve_sound toy_kernel by_length federation id 15 (entry 1) resolve_runs

honest :
    (p : Peer)
    → Has p federation.peers
    → (reg : Registry whole) × Reach toy_kernel by_length reg
      × (p ≡ registry_peer toy_kernel by_length reg)
honest p (inl q) = (catalog, reached, q)
honest p (inr m) = absurd m

federated_resolve_bound_example :
    Filed toy_kernel by_length (federated_resolve toy_kernel by_length federation id 15).1
    × (((federated_resolve toy_kernel by_length federation id 15).0 ≡ none)
        ⊎ ((r : SignedRecord) × ((federated_resolve toy_kernel by_length federation id 15).0
              ≡ some r)
            × (id_of r ≡ id)))
federated_resolve_bound_example =
    federated_resolve_bound toy_kernel by_length federation id 15 honest tt
