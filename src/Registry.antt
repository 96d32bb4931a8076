-- ===== src/Registry.antt =====
-- crates/thicket-registry/src/registry.rs, and the part of embedder.rs that it uses. An operation
-- that fails has changed nothing, so it returns the new registry only when it succeeds.
pub mod Publishing
pub mod Discovery
pub mod Revoking
pub mod Abstract
pub mod Embedding
pub mod Leases
pub mod Renewal
pub mod Scores
pub mod Invariant
use Prim.Native.Nat.{Ordering}
use mathlib.Core.List.{foldl, zip}
use thicket_ai.Base.{
  ℕ, ◌+◌, ◌-◌, ◌%◌, String, Bool, true, false, not, ◌||◌, Option, none, some, List, [], ◌∷◌, map, ⊤,
  Result, ok, err, ◌>>=◌, ◌>>◌, reject_if, map_err, ok_or, Bytes, any, all, is_nil, filter, take,
  length, contains, ltb, leb, ◌==◌, String_eq, u64_mod, if◌then◌else◌,
}
use thicket_ai.Base.Float.{Float, or_equal}
use thicket_ai.Base.Dict
use thicket_ai.Base.Dict.{Dict}
use thicket_ai.Core
use thicket_ai.Core.{
  Kernel, ResourceId, ResourceId_eq, Revocation, Visibility, Capability, Lease, RecordPayload,
  SignedRecord,
}
use thicket_ai.Core.Identity.{
  RevocationSet, no_revocations, is_revoked, revoke_key, verify_revocation,
}
use thicket_ai.Core.Record.{verify_record}

pub data RegistryError : Type 0 where
  core : Core.Error → RegistryError
  stale not_found not_authorized : RegistryError

pub record Need : Type 0 where
  pub intent_text : String
  pub kind : Option String
  pub tags : List String
  pub top_k : ℕ

-- `Need::new` and `Need::of_kind`
unfoldable pub new_need : String → ℕ → Need
new_need intent_text top_k = record {
  intent_text = intent_text;
  kind = none;
  tags = [];
  top_k = top_k;
}

unfoldable pub of_kind : Need → String → Need
of_kind need kind = record need { kind = some kind }

-- the trait `Embedder`
pub record Embedder (fl : Float) : Type 0 where
  pub dim : ℕ
  pub embed : String → List fl.F32

abbrev pub id_of : SignedRecord → ResourceId
id_of r = r.payload.id

unfoldable pub lease_expired : SignedRecord → ℕ → Bool
lease_expired r now = elim r.payload.lease [ none ↦ false | some l ↦ ltb l.expires_at now ]

abbrev pub is_public : Visibility → Bool
is_public Visibility.public = true
is_public Visibility.unlisted = false
is_public Visibility.private = false

unfoldable pub kind_matches : SignedRecord → Need → Bool
kind_matches r need = elim need.kind [
  | none ↦ true
  | some k ↦ r.payload.kind == k || any (λ c. c.kind == k) r.payload.capabilities
]

unfoldable pub tags_match : SignedRecord → Need → Bool
tags_match r need = all (λ t. any (λ c. contains c.tags t) r.payload.capabilities) need.tags

module _ (fl : Float) where
  pub record Stored : Type 0 where
    pub entry : SignedRecord
    pub cap_embeddings : List (List fl.F32)

  pub record Registry : Type 0 where
    pub store : Dict ResourceId Stored
    pub revocations : RevocationSet

  -- `Registry::new`
  abbrev pub new_registry : Registry
  new_registry = record { store = []; revocations = no_revocations }

  unfoldable pub dot : List fl.F32 → List fl.F32 → fl.F32
  dot a b = foldl fl.add fl.zero (map (λ p. fl.mul p.0 p.1) (zip a b))

  -- embedder.rs
  unfoldable pub cosine : List fl.F32 → List fl.F32 → fl.F32
  unfolding dot
  cosine a b =
      let na = fl.sqrt (dot a a) in
      let nb = fl.sqrt (dot b b) in
      if fl.is_zero na || fl.is_zero nb then fl.zero else fl.div (dot a b) (fl.mul na nb)

  unfoldable pub best_capability_score : List fl.F32 → Stored → fl.F32
  best_capability_score query s = foldl fl.max fl.lowest (map (cosine query) s.cap_embeddings)

  -- the order of the results, the best score first
  unfoldable pub by_score : {A : Type 0} → fl.F32 × A → fl.F32 × A → Ordering
  by_score a b = or_equal (fl.partial_cmp b.0 a.0)

module _ (k : Kernel) {fl : Float} (embedder : Embedder fl) where
  -- a version that is not newer than the stored one
  unfoldable pub is_stale : Option (Stored fl) → SignedRecord → Bool
  is_stale none r = false
  is_stale (some existing) r = leb r.payload.version existing.entry.payload.version

  unfoldable pub to_stored : SignedRecord → Stored fl
  to_stored r = record {
    entry = r;
    cap_embeddings = map (λ c. embedder.embed c.description) r.payload.capabilities;
  }

  unfoldable pub register : Registry fl → SignedRecord → ℕ → Result RegistryError (Registry fl)
  register reg r now = do
    map_err core (verify_record k r now reg.revocations)
    reject_if (is_stale (Dict.get (id_of r) reg.store) r) stale
    ok (record reg { store = Dict.insert (id_of r) (to_stored r) reg.store })

  unfoldable pub resolve_stored : SignedRecord → Visibility → Result RegistryError SignedRecord
  resolve_stored r Visibility.private = err not_authorized
  resolve_stored r Visibility.public = ok r
  resolve_stored r Visibility.unlisted = ok r

  unfoldable pub resolve : Registry fl → ResourceId → ℕ → Result RegistryError SignedRecord
  resolve reg id now = do
    s ← ok_or (Dict.get id reg.store) not_found
    reject_if (lease_expired s.entry now) not_found
    resolve_stored s.entry s.entry.payload.visibility

  -- the entries that the filters of `search` keep
  unfoldable pub candidates : Registry fl → Need → ℕ → List (Stored fl)
  candidates reg need now =
      filter (λ s. tags_match s.entry need)
        (filter (λ s. kind_matches s.entry need)
          (filter (λ s. not (lease_expired s.entry now))
            (filter (λ s. is_public s.entry.payload.visibility) (map (λ e. e.1) reg.store))))

  unfoldable pub search : Registry fl → Need → ℕ → List SignedRecord
  search reg need now =
      let q = embedder.embed need.intent_text in
      let scored = map (λ s. (best_capability_score fl q s, s)) (candidates reg need now) in
      map (λ p. p.1.entry) (take need.top_k (fl.sort_by (by_score fl) scored))

  -- the entry leaves with its signer's trust
  unfoldable pub drop_untrusted : Registry fl → ResourceId → Option (Stored fl) → Registry fl
  drop_untrusted reg id none = reg
  drop_untrusted reg id (some s) =
      if is_revoked reg.revocations s.entry.signer_pub
      then record reg { store = Dict.remove id reg.store }
      else reg

  unfoldable pub revoke : Registry fl → ResourceId → Revocation → Result RegistryError (Registry fl)
  revoke reg id revocation = do
    s ← ok_or (Dict.get id reg.store) not_found
    map_err core (verify_revocation k s.entry.payload.root_public_key revocation)
    ok (
        drop_untrusted
          (record reg { revocations = revoke_key reg.revocations revocation.working_pub }) id
          (Dict.get id reg.store))

  -- `now + ttl` wraps in a release build; a debug build panics where it would.
  unfoldable pub renewed_lease : ℕ → ℕ → Lease
  renewed_lease now ttl = record { ttl = ttl; issued_at = now; expires_at = (now + ttl) % u64_mod }

  unfoldable pub with_lease : Stored fl → Lease → Stored fl
  with_lease s l = record s {
    entry = record s.entry { payload = record s.entry.payload { lease = some l } };
  }

  unfoldable pub renew : Registry fl → ResourceId → ℕ → ℕ → Result RegistryError (ℕ × Registry fl)
  renew reg id now ttl = do
    s ← ok_or (Dict.get id reg.store) not_found
    old ← ok_or s.entry.payload.lease not_found
    ok (
      (renewed_lease now ttl).expires_at,
      record reg { store = Dict.insert id (with_lease s (renewed_lease now ttl)) reg.store },
    )

  abbrev is_some : Option (Stored fl) → Bool
  is_some none = false
  is_some (some s) = true

  unfoldable pub deregister : Registry fl → ResourceId → Bool × Registry fl
  deregister reg id =
      (is_some (Dict.get id reg.store), record reg { store = Dict.remove id reg.store })

  unfoldable pub sweep_expired : Registry fl → ℕ → ℕ × Registry fl
  sweep_expired reg now =
      let kept = filter (λ e. not (lease_expired e.1.entry now)) reg.store in
      (length reg.store - length kept, record reg { store = kept })

  -- `Registry::len` and `Registry::is_empty`
  unfoldable pub record_count : Registry fl → ℕ
  record_count reg = length reg.store

  unfoldable pub has_no_records : Registry fl → Bool
  has_no_records reg = is_nil reg.store

  unfoldable pub public_records : Registry fl → ℕ → List SignedRecord
  public_records reg now =
      map (λ s. s.entry)
        (filter (λ s. not (lease_expired s.entry now))
          (filter (λ s. is_public s.entry.payload.visibility) (map (λ e. e.1) reg.store)))
