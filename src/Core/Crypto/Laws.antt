-- ===== src/Core/Crypto/Laws.antt =====
-- What the byte layout of `signing_bytes` and the checks of `verify_raw` guarantee.
use thicket_ai.Base.{
  String, ◌≡◌, ◌≢◌, ◌↔◌, ap, true, [], ◌∷◌, ◌++◌, Result, ok, err, Bytes, as_bytes, length, All,
  arith, map_ok, map_err,
}
use thicket_ai.Core.Data.{serialization}
use thicket_ai.Core.Externals.{Primitives, PrimitiveLaws, Writer}
use thicket_ai.Core.Crypto.{signing_bytes, verify_raw}

-- No byte of the text is zero.
abbrev pub NulFree : String → Type 0
NulFree s = All (λ b. b ≢ 0) (as_bytes s)

-- At most one way to split a byte string at its first zero.
split_unique :
    (xs ys p q : Bytes)
    → All (λ b. b ≢ 0) xs
    → All (λ b. b ≢ 0) ys
    → xs ++ (0 ∷ p) ≡ ys ++ (0 ∷ q)
    → (xs ≡ ys) × (p ≡ q)
split_unique [] [] p q h k e = ground arith
split_unique [] (y ∷ ys) p q h k e = ground arith
split_unique (x ∷ xs) [] p q h k e = ground arith
split_unique (x ∷ xs) (y ∷ ys) p q h k e = ground (arith, split_unique xs ys p q h.1 k.1)

module _ {T U : Type 0} (write : Writer T) (write' : Writer U) where
  -- Signed bytes determine their domain and the encoded payload: equal bytes signed for two types
  -- under two domains with no zero byte come from the same domain and the same encoding.
  pub signing_bytes-separates :
      (d d' : String) (x : T) (y : U) (m : Bytes)
      → NulFree d
      → NulFree d'
      → signing_bytes write d x ≡ ok m
      → signing_bytes write' d' y ≡ ok m
      → (as_bytes d ≡ as_bytes d') × (write x ≡ write' y)
  unfolding signing_bytes
  signing_bytes-separates d d' x y m h h' e e' = go (write x) (write' y) e e'
    where
      go :
          (r s : Result String Bytes)
          → map_ok (λ cbor. as_bytes d ++ (0 ∷ cbor)) (map_err serialization r) ≡ ok m
          → map_ok (λ cbor. as_bytes d' ++ (0 ∷ cbor)) (map_err serialization s) ≡ ok m
          → (as_bytes d ≡ as_bytes d') × (r ≡ s)
      go (ok b) (ok b') p q =
          let r = split_unique (as_bytes d) (as_bytes d') b b' h h' (cc) in (r.0, ap ok r.1)
      go (err _) _ p q = absurd (ground arith)
      go (ok b) (err _) p q = absurd (ground arith)

module _ (c : Primitives) where
  -- A signature is accepted exactly when the key is a 32-byte point, the signature has 64 bytes,
  -- and Ed25519 accepts them for the message.
  pub verify_raw_iff :
      (key msg sig : Bytes)
      → (verify_raw c key msg sig ≡ ok tt) ↔ (
          (length key ≡ 32)
          × (c.is_point key ≡ true)
          × (length sig ≡ 64)
          × (c.vk_verify key msg sig ≡ true))
  unfolding verify_raw
  verify_raw_iff key msg sig = ground arith

  -- Under the laws of the primitives, what a key signs verifies under its public key.
  pub verify_raw-sign :
      PrimitiveLaws c
      → (seed msg : Bytes)
      → verify_raw c (c.verifying_key seed) msg (c.signing_key_sign seed msg) ≡ ok tt
  verify_raw-sign laws seed msg = (verify_raw_iff _ msg _).1 (
    laws.length-verifying_key seed,
    laws.is_point-verifying_key seed,
    laws.length-sign seed msg,
    laws.verify-sign seed msg,
  )
