-- ===== src/Federation.antt =====
-- crates/thicket-federation/src: federation.rs and peer.rs. A peer is the trait `Peer`: what it
-- answers to each query. The cache stands in the state, as the `RefCell` does.
pub mod Profile
pub mod Gathering
pub mod Search
pub mod Resolve
use Profile.{CatalogProfile, build}
use Prim.Native.Nat.{Ordering}
use mathlib.Core.List.{foldl}
use thicket_ai.Base.{
  ℕ, zero, suc, ◌+◌, ◌%◌, String, Bool, true, false, not, Option, none, some, List, [], ◌∷◌, ◌++◌,
  map, Result, ok, err, take, length, u64_mod, leb, ltb, is_ok, to_option, if◌then◌else◌,
}
use thicket_ai.Base.Float.{Float, or_equal}
use thicket_ai.Base.Dict
use thicket_ai.Base.Dict.{Dict}
use thicket_ai.Core.{Kernel, ResourceId, ResourceId_eq, SignedRecord, Lease}
use thicket_ai.Core.Identity.{no_revocations}
use thicket_ai.Core.Record.{verify_record}
use thicket_ai.Registry
use thicket_ai.Registry.{Need, Embedder, Registry, id_of, cosine, by_score}

-- the trait `Peer`
pub record Peer : Type 0 where
  pub peer_search : Need → ℕ → List SignedRecord
  pub peer_resolve : ResourceId → ℕ → Option SignedRecord
  pub peer_records : ℕ → List SignedRecord

-- `RegistryPeer`
unfoldable pub registry_peer :
    (k : Kernel) {fl : Float} (embedder : Embedder fl) → Registry fl → Peer
registry_peer k embedder registry = record {
  peer_search = λ need now. Registry.search k embedder registry need now;
  peer_resolve = λ id now. to_option (Registry.resolve k embedder registry id now);
  peer_records = λ now. Registry.public_records k embedder registry now;
}

-- A cached record with the time to which it is fresh.
abbrev pub Cache : Type 0
Cache = Dict ResourceId (SignedRecord × ℕ)

module _ (fl : Float) where
  pub record Federation : Type 0 where
    pub peers : List Peer
    pub profiles : List (CatalogProfile fl)
    pub cache : Cache
    pub default_ttl : ℕ
    pub max_peers : ℕ

  -- `Federation::new`, with `usize::MAX` of a 64-bit machine
  unfoldable pub new_federation : Federation
  new_federation = record {
    peers = [];
    profiles = [];
    cache = [];
    default_ttl = 300;
    max_peers = 18446744073709551615;
  }

  -- `Federation::peer_count`
  unfoldable pub peer_count : Federation → ℕ
  peer_count fed = length fed.peers

  unfoldable pub with_max_peers : Federation → ℕ → Federation
  with_max_peers fed n = record fed { max_peers = n }

abbrev pub numbered : {A : Type 0} → ℕ → List A → List (A × ℕ)
numbered i [] = []
numbered i (x ∷ xs) = (x, i) ∷ numbered (i + 1) xs

-- `self.peers[i]`, where `none` is the panic
abbrev pub at : {A : Type 0} → List A → ℕ → Option A
at [] i = none
at (x ∷ xs) zero = some x
at (x ∷ xs) (suc i) = at xs i

module _ (k : Kernel) {fl : Float} (embedder : Embedder fl) where
  abbrev with_peer : Federation fl → Peer → Option (CatalogProfile fl) → Option (Federation fl)
  with_peer fed peer none = none
  with_peer fed peer (some profile) =
      some (record fed { peers = fed.peers ++ peer ∷ []; profiles = fed.profiles ++ profile ∷ [] })

  -- `none` is a panic while the profile is built
  unfoldable pub add_peer : Federation fl → Peer → ℕ → Option (Federation fl)
  add_peer fed peer now = with_peer fed peer (build fl (peer.peer_records now) embedder)

  unfoldable pub select_peers : Federation fl → String → List ℕ
  select_peers fed intent =
      let q = embedder.embed intent in
      let scored = map (λ p. (cosine fl q p.0.centroid, p.1)) (numbered 0 fed.profiles) in
      map (λ p. p.1) (take fed.max_peers (fl.sort_by (by_score fl) scored))

  unfoldable pub is_newer : Option SignedRecord → SignedRecord → Bool
  is_newer none rec = true
  is_newer (some existing) rec = not (leb rec.payload.version existing.payload.version)

  -- one record of a peer's answer
  unfoldable pub keep_best :
      ℕ → Dict ResourceId SignedRecord → SignedRecord → Dict ResourceId SignedRecord
  keep_best now best rec =
      if is_ok (verify_record k rec now no_revocations)
      then (if is_newer (Dict.get (id_of rec) best) rec
          then Dict.insert (id_of rec) rec best
          else best)
      else best

  unfoldable pub answers : Option Peer → Need → ℕ → List SignedRecord
  answers none need now = []
  answers (some p) need now = p.peer_search need now

  unfoldable pub gather :
      Federation fl
      → Need
      → ℕ
      → List ℕ
      → Dict ResourceId SignedRecord
      → Dict ResourceId SignedRecord
  gather fed need now [] best = best
  gather fed need now (i ∷ is) best =
      gather fed need now is (foldl (keep_best now) best (answers (at fed.peers i) need now))

  unfoldable pub record_score : List fl.F32 → SignedRecord → fl.F32
  record_score q rec =
      foldl fl.max fl.lowest
        (map (λ c. cosine fl q (embedder.embed c.description)) rec.payload.capabilities)

  unfoldable pub by_record_score : List fl.F32 → SignedRecord → SignedRecord → Ordering
  by_record_score q a b = or_equal (fl.partial_cmp (record_score q b) (record_score q a))

  unfoldable pub federated_search : Federation fl → Need → ℕ → List SignedRecord
  federated_search fed need now =
      let best = gather fed need now (select_peers fed need.intent_text) [] in
      take need.top_k
        (fl.sort_by (by_record_score (embedder.embed need.intent_text)) (map (λ e. e.1) best))

  -- `*expires > now`
  abbrev fresh_at : Option (SignedRecord × ℕ) → ℕ → Bool
  fresh_at none now = false
  fresh_at (some (rec, expires)) now = ltb now expires

  unfoldable pub is_cached : Federation fl → ResourceId → ℕ → Bool
  is_cached fed id now = fresh_at (Dict.get id fed.cache) now

  abbrev ttl_of : Federation fl → Option Lease → ℕ
  ttl_of fed none = fed.default_ttl
  ttl_of fed (some l) = l.ttl

  unfoldable pub remember : Federation fl → ResourceId → SignedRecord → ℕ → Federation fl
  remember fed id rec now = record fed {
    cache = Dict.insert id (rec, (now + ttl_of fed rec.payload.lease) % u64_mod) fed.cache;
  }

  -- the loop over the peers
  unfoldable pub ask :
      Federation fl → ResourceId → ℕ → List Peer → Option SignedRecord × Federation fl
  ask fed id now [] = (none, fed)
  ask fed id now (p ∷ ps) =
      let rest = ask fed id now ps in
      elim (p.peer_resolve id now) [
        | none ↦ rest
        | some rec ↦
            if is_ok (verify_record k rec now no_revocations)
            then (some rec, remember fed id rec now)
            else rest
      ]

  abbrev cached : Option (SignedRecord × ℕ) → ℕ → Option SignedRecord
  cached none now = none
  cached (some (rec, expires)) now = if ltb now expires then some rec else none

  unfoldable pub federated_resolve :
      Federation fl → ResourceId → ℕ → Option SignedRecord × Federation fl
  federated_resolve fed id now =
      let asked = ask fed id now fed.peers in
      elim (cached (Dict.get id fed.cache) now) [ some rec ↦ (some rec, fed) | none ↦ asked ]
