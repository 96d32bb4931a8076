-- ===== src/Tests/Words.antt =====
-- The theorems on texts at concrete data: embeddings, ids in print and the positions of a run.
use Prim.Native.Char.{char, code}
use mathlib.Core.List.{Permᴰ}
use thicket_ai.Base.{
  ℕ, zero, suc, ◌+◌, ◌<◌, ◌≡◌, refl, ap, ◌∙◌, if◌then◌else◌, arith, some, List, [], ◌∷◌, ok, String,
  Bytes, as_bytes, length, ltb,
}
use thicket_ai.Base.Decimal.{digits, decimal}
use thicket_ai.Core.{ResourceId}
use thicket_ai.Core.Checkpoint.{position, replay, new_checkpoint}
use thicket_ai.Core.Checkpoint.Positions.{record_all, replay-record_all}
use thicket_ai.Core.Identity.{from_root_public}
use thicket_ai.Core.Identity.Printing.{Hex, display, from_hex, from_hex-display}
use thicket_ai.Registry.Embedding.{Words, new_embedder, default_embedder, split, tokens, embed}
use thicket_ai.Registry.Embedding.Bag.{embed-Perm, embed_total}
use thicket_ai.Tests.World.{fit, toy_kernel, toy_laws, whole, root_key}

abbrev words : Words
words = record {
  is_alphanumeric = λ c. ltb 64 (code c);
  to_lowercase = λ s. s;
  hash = λ s. length (as_bytes s);
}

embed_total_example :
    (v : List ℕ) × (embed words whole (new_embedder 0) "find, a voice" ≡ some v)
    × (length v ≡ (new_embedder 0).dim)
    × (0 < length v)
embed_total_example = embed_total words whole 0 "find, a voice"

embed-Perm_example :
    embed words whole default_embedder "speech, text!"
    ≡ embed words whole default_embedder "text (speech)"
unfolding tokens split
embed-Perm_example =
    embed-Perm words whole default_embedder "speech, text!" "text (speech)" (Permᴰ.swap refl refl)

replay-record_all_example :
    replay (record_all (new_checkpoint (1 ∷ [])) ((7 ∷ []) ∷ (8 ∷ []) ∷ [])) (position 1)
    ≡ some (8 ∷ [])
replay-record_all_example = replay-record_all (1 ∷ []) ((7 ∷ []) ∷ (8 ∷ []) ∷ []) 1

positions_in_print : position 120 ≡ "#120"
unfolding position decimal digits
positions_in_print = refl

-- Numbers in unary in place of hexadecimal digits: "1" as often as the number is high, then "0".
abbrev unary : ℕ → String → String
unary zero s = String.◌∷◌ (char 48 tt) s
unary (suc n) s = String.◌∷◌ (char 49 tt) (unary n s)

abbrev encode : Bytes → String
encode [] = ""
encode (n ∷ b) = unary n (encode b)

abbrev decode : String → ℕ → Bytes
decode String.[] n = []
decode (String.◌∷◌ c s) n =
    let rest = decode s (if ltb (code c) 49 then 0 else suc n) in
    if ltb (code c) 49 then n ∷ rest else rest

decode-unary : (n k : ℕ) (s : String) → decode (unary n s) k ≡ (k + n) ∷ decode s 0
decode-unary zero k s = ground arith
decode-unary (suc n) k s = ground (arith, decode-unary n (suc k) s)

decode-encode : (b : Bytes) → decode (encode b) 0 ≡ b
decode-encode [] = refl
decode-encode (n ∷ b) = decode-unary n 0 (encode b) ∙ ground (arith, decode-encode b)

abbrev unary_hex : Hex
unary_hex = record { encode = encode; decode = λ s. some (decode s 0) }

id_reads_back :
    (i : ResourceId) × (from_root_public toy_kernel root_key ≡ ok i)
    × (from_hex unary_hex (display unary_hex i) ≡ ok i)
unfolding fit
id_reads_back =
    from_hex-display toy_kernel toy_laws unary_hex root_key refl (λ b. ap some (decode-encode b))
