-- ===== src/Registry/Embedding.antt =====
-- crates/thicket-registry/src/embedder.rs, the embedder `MockEmbedder`. `none` is the panic of an
-- index out of bounds. The tables of Unicode and the hash of the standard library are parameters.
pub mod Bag
use Prim.Native.Nat.{max}
use Prim.Native.Char.{Char}
use mathlib.Core.List.{foldl}
use thicket_ai.Base.{
  ℕ, zero, suc, ◌%◌, String, Bool, true, false, not, Option, none, some, List, [], ◌∷◌, map, filter,
  if◌then◌else◌,
}
use thicket_ai.Base.Float.{Float, zeros_of, cons_some}
use thicket_ai.Registry.{Embedder}

-- What the code calls: `char::is_alphanumeric`, `str::to_lowercase`, and the number below 2 ^ 64 that
-- `DefaultHasher` ends with on a text.
pub record Words : Type 0 where
  pub is_alphanumeric : Char → Bool
  pub to_lowercase : String → String
  pub hash : String → ℕ

pub record MockEmbedder : Type 0 where
  pub dim : ℕ

-- `MockEmbedder::new` and `MockEmbedder::default`
unfoldable pub new_embedder : ℕ → MockEmbedder
new_embedder dim = record { dim = max dim 1 }

unfoldable pub default_embedder : MockEmbedder
unfolding new_embedder
default_embedder = new_embedder 64

-- `str::is_empty`
abbrev pub is_blank : String → Bool
is_blank String.[] = true
is_blank (String.◌∷◌ c s) = false

-- puts a character before the first piece
abbrev pub grow : Char → List String → List String
grow c [] = (String.◌∷◌ c String.[]) ∷ []
grow c (w ∷ ws) = (String.◌∷◌ c w) ∷ ws

-- `str::split(p)`: the pieces between the characters that meet the test, empty ones too
unfoldable pub split : (Char → Bool) → String → List String
split p String.[] = String.[] ∷ []
split p (String.◌∷◌ c s) = let rest = split p s in if p c then String.[] ∷ rest else grow c rest

module _ (w : Words) where
  unfoldable pub tokens : String → List String
  unfolding split
  tokens text = filter (λ t. not (is_blank t)) (split (λ c. not (w.is_alphanumeric c)) text)

  module _ (fl : Float) where
    -- `v[idx] += 1.0`
    unfoldable pub bump : ℕ → List fl.F32 → Option (List fl.F32)
    bump i [] = none
    bump zero (x ∷ xs) = some (fl.add x fl.one ∷ xs)
    bump (suc i) (x ∷ xs) = cons_some fl x (bump i xs)

    unfoldable pub slot : MockEmbedder → String → ℕ
    slot m token = w.hash (w.to_lowercase token) % m.dim

    -- the loop over the tokens
    unfoldable pub tally : MockEmbedder → List String → List fl.F32 → Option (List fl.F32)
    tally m [] v = some v
    tally m (t ∷ ts) v = elim (bump (slot m t) v) [ none ↦ none | some v' ↦ tally m ts v' ]

    -- the division by the norm
    unfoldable pub unit_length : List fl.F32 → List fl.F32
    unit_length v =
        let norm = fl.sqrt (foldl fl.add fl.zero (map (λ x. fl.mul x x) v)) in
        if fl.above norm fl.zero then map (λ x. fl.div x norm) v else v

    unfoldable pub embed : MockEmbedder → String → Option (List fl.F32)
    unfolding tokens tally unit_length
    embed m text = elim (tally m (tokens text) (zeros_of fl m.dim)) [
      | none ↦ none
      | some v ↦ some (unit_length v)
    ]

    abbrev pub or_nil : Option (List fl.F32) → List fl.F32
    or_nil none = []
    or_nil (some v) = v

    -- `impl Embedder for MockEmbedder`; that the panic does not happen is a theorem
    unfoldable pub mock_embedder : MockEmbedder → Embedder fl
    unfolding embed
    mock_embedder m = record { dim = m.dim; embed = λ text. or_nil (embed m text) }
