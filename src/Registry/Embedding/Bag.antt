-- ===== src/Registry/Embedding/Bag.antt =====
-- What the embedding of a text depends on.
use Prim.Native.Nat.{max}
use mathlib.Core.List.{Permᴰ}
use thicket_ai.Base.{
  ℕ, zero, suc, ◌<◌, ◌%◌, ◌≡◌, refl, ap, sym, ◌∙◌, String, Option, none, some, List, [], ◌∷◌, map,
  length, arith, Option-cases, inl, inr,
}
use thicket_ai.Base.Float.{Float, zeros_of, cons_some}
use thicket_ai.Registry.Embedding.{
  Words, MockEmbedder, new_embedder, tokens, bump, slot, tally, unit_length, embed,
}

module _ (w : Words) (fl : Float) where
  -- `bump`, on a list that may not be there
  abbrev also : ℕ → Option (List fl.F32) → Option (List fl.F32)
  also i none = none
  also i (some v) = bump w fl i v

  also-cons_some :
      (i : ℕ) (x : fl.F32) (o : Option (List fl.F32))
      → also (suc i) (cons_some fl x o) ≡ cons_some fl x (also i o)
  unfolding bump
  also-cons_some i x none = refl
  also-cons_some i x (some v) = refl

  bump_comm : (i j : ℕ) (v : List fl.F32) → also j (bump w fl i v) ≡ also i (bump w fl j v)
  unfolding bump
  bump_comm i j [] = refl
  bump_comm zero zero (x ∷ xs) = refl
  bump_comm zero (suc j) (x ∷ xs) = elim (Option-cases (bump w fl j xs)) [
    | inl e ↦ rw e refl
    | inr (v, e) ↦ rw e refl
  ]
  bump_comm (suc i) zero (x ∷ xs) = elim (Option-cases (bump w fl i xs)) [
    | inl e ↦ rw e refl
    | inr (v, e) ↦ rw e refl
  ]
  bump_comm (suc i) (suc j) (x ∷ xs) =
      also-cons_some j x (bump w fl i xs)
      ∙ ap (λ o. cons_some fl x o) (bump_comm i j xs)
      ∙ sym (also-cons_some i x (bump w fl j xs))

  -- the loop, over tokens in lower case
  abbrev count : ℕ → List String → Option (List fl.F32) → Option (List fl.F32)
  count dim [] o = o
  count dim (t ∷ ts) o = count dim ts (also (w.hash t % dim) o)

  count-none : (dim : ℕ) (ts : List String) → count dim ts none ≡ none
  count-none dim [] = refl
  count-none dim (t ∷ ts) = count-none dim ts

  tally-count :
      (m : MockEmbedder) (ts : List String) (v : List fl.F32)
      → tally w fl m ts v ≡ count m.dim (map w.to_lowercase ts) (some v)
  unfolding tally slot
  tally-count m [] v = refl
  tally-count m (t ∷ ts) v = elim (Option-cases (bump w fl (w.hash (w.to_lowercase t) % m.dim) v)) [
    | inl e ↦
        rw (tally, slot, e)
          (sym
            (ap (count m.dim (map w.to_lowercase ts)) e ∙ count-none m.dim (map w.to_lowercase ts)))
    | inr (v', e) ↦
        rw (tally, slot, e) (tally-count m ts v' ∙ sym (ap (count m.dim (map w.to_lowercase ts)) e))
  ]

  also_comm : (i j : ℕ) (o : Option (List fl.F32)) → also j (also i o) ≡ also i (also j o)
  also_comm i j none = refl
  also_comm i j (some v) = bump_comm i j v

  count-Perm :
      (dim : ℕ) {ts us : List String}
      → Permᴰ ts us
      → (o : Option (List fl.F32)) → count dim ts o ≡ count dim us o
  count-Perm dim Permᴰ.nil o = refl
  count-Perm dim (Permᴰ.cons {a = a} {l₂ = us} e p) o =
      count-Perm dim p (also (w.hash a % dim) o)
      ∙ ap (λ t. count dim us (also (w.hash t % dim) o)) e
  count-Perm dim (Permᴰ.swap {a = a} {b = b} {l = l} e e') o =
      rw (← e, ← e') (ap (count dim l) (also_comm (w.hash a % dim) (w.hash b % dim) o))
  count-Perm dim (Permᴰ.trans p q) o = count-Perm dim p o ∙ count-Perm dim q o

  -- Two texts whose words, in lower case, are the same up to their order have the same embedding,
  -- to the last bit.
  pub embed-Perm :
      (m : MockEmbedder) (text text' : String)
      → Permᴰ (map w.to_lowercase (tokens w text)) (map w.to_lowercase (tokens w text'))
      → embed w fl m text ≡ embed w fl m text'
  unfolding embed
  embed-Perm m text text' p =
      let same : tally w fl m (tokens w text) (zeros_of fl m.dim)
          ≡ tally w fl m (tokens w text') (zeros_of fl m.dim) =
        tally-count m (tokens w text) (zeros_of fl m.dim)
        ∙ count-Perm m.dim p (some (zeros_of fl m.dim))
        ∙ sym (tally-count m (tokens w text') (zeros_of fl m.dim)) in
      rw (same, embed) refl

  bump-in_range :
      (i : ℕ) (v : List fl.F32)
      → i < length v
      → (v' : List fl.F32) × (bump w fl i v ≡ some v') × (length v' ≡ length v)
  unfolding bump
  bump-in_range i [] h = absurd (omega (arith, h))
  bump-in_range zero (x ∷ xs) h = (fl.add x fl.one ∷ xs, refl, refl)
  bump-in_range (suc i) (x ∷ xs) h =
      let rest = bump-in_range i xs (omega (arith, h)) in
      (x ∷ rest.0, rw rest.1 refl, ap suc rest.2)

  tally_total :
      (m : MockEmbedder) (ts : List String) (v : List fl.F32)
      → 0 < m.dim
      → length v ≡ m.dim
      → (v' : List fl.F32) × (tally w fl m ts v ≡ some v') × (length v' ≡ m.dim)
  unfolding tally slot
  tally_total m [] v pos len = (v, refl, len)
  tally_total m (t ∷ ts) v pos len =
      let one = bump-in_range (slot w fl m t) v (grind (arith, len, pos)) in
      let rest = tally_total m ts one.0 pos (one.2 ∙ len) in
      (rest.0, rw (one.1, tally) rest.1, rest.2)

  length-zeros_of : (n : ℕ) → length (zeros_of fl n) ≡ n
  length-zeros_of zero = refl
  length-zeros_of (suc n) = ap suc (length-zeros_of n)

  length-map : (f : fl.F32 → fl.F32) (v : List fl.F32) → length (map f v) ≡ length v
  length-map f [] = refl
  length-map f (x ∷ xs) = ap suc (length-map f xs)

  length-unit_length : (v : List fl.F32) → length (unit_length w fl v) ≡ length v
  unfolding unit_length
  length-unit_length v = grind (arith, length-map)

  -- Whatever dimension was asked for, zero too, embedding a text never indexes outside its vector,
  -- and gives as many numbers as the embedder announces, at least one.
  pub embed_total :
      (dim : ℕ) (text : String)
      → (v : List fl.F32) × (embed w fl (new_embedder dim) text ≡ some v)
        × (length v ≡ (new_embedder dim).dim)
        × (0 < length v)
  unfolding embed new_embedder
  embed_total dim text =
      let run =
        tally_total (new_embedder dim) (tokens w text) (zeros_of fl (max dim 1)) (omega arith)
          (length-zeros_of (max dim 1)) in
      let len : length (unit_length w fl run.0) ≡ max dim 1 = length-unit_length run.0 ∙ run.2 in
      (unit_length w fl run.0, rw (run.1, embed) refl, len, omega (arith, len))
