-- ===== src/Federation/Profile.antt =====
-- crates/thicket-federation/src/profile.rs. `none` is the panic of an index out of bounds, where an
-- embedding is longer than the dimension. The sets of kinds and tags are lists without repetition.
use mathlib.Core.List.{foldl}
use thicket_ai.Base.{
  ℕ, ◌+◌, String, Option, none, some, List, [], ◌∷◌, map, length, ltb, contains, String_eq,
  if◌then◌else◌,
}
use thicket_ai.Base.Float.{Float, zeros_of, cons_some}
use thicket_ai.Core.{SignedRecord, Capability}
use thicket_ai.Registry.{Embedder, dot}

-- `BTreeSet::insert`
unfoldable pub add_to_set : List String → String → List String
add_to_set set x = if contains set x then set else x ∷ set

module _ (fl : Float) where
  pub record CatalogProfile : Type 0 where
    pub centroid : List fl.F32
    pub kinds : List String
    pub tags : List String
    pub count : ℕ

  -- `centroid[i] += x` for each `x` of the embedding
  unfoldable pub add_into : List fl.F32 → List fl.F32 → Option (List fl.F32)
  add_into cs [] = some cs
  add_into [] (x ∷ xs) = none
  add_into (c ∷ cs) (x ∷ xs) = cons_some fl (fl.add c x) (add_into cs xs)

  -- the sums of one capability's embedding, or the panic before it
  unfoldable pub add_capability :
      Embedder fl → Option (List fl.F32) → Capability → Option (List fl.F32)
  add_capability embedder none cap = none
  add_capability embedder (some cs) cap = add_into cs (embedder.embed cap.description)

  unfoldable pub add_record :
      Embedder fl → Option (List fl.F32) → SignedRecord → Option (List fl.F32)
  add_record embedder cs rec = foldl (add_capability embedder) cs rec.payload.capabilities

  unfoldable pub record_tags : List String → SignedRecord → List String
  record_tags tags rec =
      foldl (λ ts cap. foldl add_to_set ts cap.tags) tags rec.payload.capabilities

  -- the two divisions: by the number of embeddings, and by the norm
  unfoldable pub normalized : ℕ → List fl.F32 → List fl.F32
  normalized n cs =
      let mean = if ltb 0 n then map (λ x. fl.div x (fl.from_u64 n)) cs else cs in
      let norm = fl.sqrt (dot fl mean mean) in
      if fl.above norm fl.zero then map (λ x. fl.div x norm) mean else mean

  abbrev finish : ℕ → List SignedRecord → Option (List fl.F32) → Option CatalogProfile
  finish n records none = none
  finish n records (some cs) = some (record {
    centroid = normalized n cs;
    kinds = foldl (λ ks rec. add_to_set ks rec.payload.kind) [] records;
    tags = foldl record_tags [] records;
    count = length records;
  })

  -- `CatalogProfile::build`
  unfoldable pub build : List SignedRecord → Embedder fl → Option CatalogProfile
  build records embedder =
      finish (foldl (λ n rec. n + length rec.payload.capabilities) 0 records) records
        (foldl (add_record embedder) (some (zeros_of fl embedder.dim)) records)
