-- ===== src/Core/Identity/Verify.antt =====
-- When a working key is accepted, and why it is refused.
use thicket_ai.Base.{
  ℕ, ◌≤◌, ◌≡◌, ◌≢◌, ◌↔◌, true, List, [], ◌∷◌, ◌++◌, some, ok, err, Bytes, as_bytes, length, find,
  ◌==◌, List_eq, ℕ_eq, list_eq_iff, All, Has, arith, refl, false, not_contains_iff, Option-cases,
  Result-cases, inl, inr,
}
use thicket_ai.Core.Data.{revoked, ResourceId, id_eq_iff, KeyEndorsement}
use thicket_ai.Core.Externals.{Kernel}
use thicket_ai.Core.Crypto.{signing_bytes, sha256, verify_raw}
use thicket_ai.Core.Crypto.Laws.{verify_raw_iff}
use thicket_ai.Core.Identity.{
  RevocationSet, no_revocations, is_revoked, from_root_public, endorse_domain, verify_endorsement,
  verify_working_key,
}

-- The root key has signed the endorsement: Ed25519 accepts the signature under the root key, for the
-- domain, a zero byte and the encoded key and window.
pub record Endorsed (k : Kernel) (root_pub : Bytes) (e : KeyEndorsement) : Type 0 where
  pub key_length : length root_pub ≡ 32
  pub key_point : k.is_point root_pub ≡ true
  pub signature_length : length e.root_sig ≡ 64
  pub cbor : Bytes
  pub encoded :
      k.write_endorsement
        (record { working_pub = e.working_pub; not_before = e.not_before; not_after = e.not_after })
      ≡ ok cbor
  pub signed : k.vk_verify root_pub (as_bytes endorse_domain ++ (0 ∷ cbor)) e.root_sig ≡ true

-- The key `signer` may sign for `id` at `now`: the id is the hash of the root key, the first
-- endorsement of `signer` is signed by the root, `now` lies in its window, and it is not revoked.
pub record MaySign (k : Kernel) (root_pub : Bytes) (id : ResourceId)
    (endorsements : List KeyEndorsement) (signer : Bytes) (now : ℕ) (revs : RevocationSet)
    : Type 0 where
  pub bound : id.as_id_bytes ≡ k.digest root_pub
  pub endorsement : KeyEndorsement
  pub first : find (λ x. x.working_pub == signer) endorsements ≡ some endorsement
  pub genuine : Endorsed k root_pub endorsement
  pub started : endorsement.not_before ≤ now
  pub unexpired : now ≤ endorsement.not_after
  pub trusted : ¬ Has signer revs.keys

-- What the revocations hold is what they distrust.
not_revoked_iff :
    (revs : RevocationSet) (key : Bytes) → (is_revoked revs key ≡ false) ↔ (¬ Has key revs.keys)
unfolding is_revoked
not_revoked_iff revs key = not_contains_iff revs.keys key

pub MaySign-not_revoked :
    {k : Kernel} {root_pub : Bytes} {id : ResourceId} {es : List KeyEndorsement} {signer : Bytes}
    {now : ℕ} {revs : RevocationSet}
    → MaySign k root_pub id es signer now revs
    → is_revoked revs signer ≡ false
MaySign-not_revoked {signer} {revs} may = (not_revoked_iff revs signer).1 may.trusted

module _ (k : Kernel) where
  verify_endorsement-Endorsed :
      (root_pub : Bytes) (e : KeyEndorsement)
      → verify_endorsement k root_pub e ≡ ok tt
      → Endorsed k root_pub e
  unfolding verify_endorsement signing_bytes
  verify_endorsement-Endorsed root_pub e h =
      elim (Result-cases (
        k.write_endorsement (record {
          working_pub = e.working_pub;
          not_before = e.not_before;
          not_after = e.not_after;
        }))) [
          | inl (x, failed) ↦ absurd (ground arith)
          | inr (cbor, encoded) ↦
              let m = as_bytes endorse_domain ++ (0 ∷ cbor) in
              let v = (verify_raw_iff k.crypto root_pub m e.root_sig).0 (ground arith) in
              record {
                key_length = v.0;
                key_point = v.1;
                signature_length = v.2;
                cbor = cbor;
                encoded = encoded;
                signed = v.3;
              }
        ]

  Endorsed-verify_endorsement :
      (root_pub : Bytes) (e : KeyEndorsement)
      → Endorsed k root_pub e
      → verify_endorsement k root_pub e ≡ ok tt
  unfolding verify_endorsement signing_bytes
  Endorsed-verify_endorsement root_pub e x =
      let v =
        (verify_raw_iff k.crypto root_pub (as_bytes endorse_domain ++ (0 ∷ x.cbor)) e.root_sig).1
          (x.key_length, x.key_point, x.signature_length, x.signed) in
      rw x.encoded (rw v refl)

  -- An endorsement is accepted exactly when the root key has signed it.
  pub verify_endorsement_iff :
      (root_pub : Bytes) (e : KeyEndorsement)
      → (verify_endorsement k root_pub e ≡ ok tt) ↔ Endorsed k root_pub e
  verify_endorsement_iff root_pub e =
      (verify_endorsement-Endorsed root_pub e, Endorsed-verify_endorsement root_pub e)

  pub verify_working_key_sound :
      (root_pub : Bytes) (id : ResourceId) (es : List KeyEndorsement) (signer : Bytes) (now : ℕ)
      (revs : RevocationSet)
      → verify_working_key k root_pub id es signer now revs ≡ ok tt
      → MaySign k root_pub id es signer now revs
  unfolding verify_working_key from_root_public
  verify_working_key_sound root_pub id es signer now revs h =
      elim (Option-cases (find (λ x. x.working_pub == signer) es)) [
        | inl missing ↦ absurd (ground arith)
        | inr (e, found) ↦ record {
          bound = ground (
            arith,
            id_eq_iff (record { as_id_bytes = k.digest root_pub }) id,
            list_eq_iff (k.digest root_pub) id.as_id_bytes,
          );
          endorsement = e;
          first = found;
          genuine = verify_endorsement-Endorsed root_pub e (ground arith);
          started = ground arith;
          unexpired = ground arith;
          trusted = (not_revoked_iff revs signer).0 (ground arith);
        }
      ]

  pub verify_working_key_complete :
      (root_pub : Bytes) (id : ResourceId) (es : List KeyEndorsement) (signer : Bytes) (now : ℕ)
      (revs : RevocationSet)
      → MaySign k root_pub id es signer now revs
      → verify_working_key k root_pub id es signer now revs ≡ ok tt
  unfolding verify_working_key from_root_public
  verify_working_key_complete root_pub id es signer now revs m =
      let long = m.genuine.key_length in
      let genuine = Endorsed-verify_endorsement root_pub m.endorsement m.genuine in
      let free = MaySign-not_revoked m in
      ground (
        arith,
        id_eq_iff (record { as_id_bytes = k.digest root_pub }) id,
        list_eq_iff (k.digest root_pub) id.as_id_bytes,
      )

  -- A key is accepted exactly when it may sign: the id is the hash of the root key, Ed25519 accepts
  -- the root's signature for the first endorsement of the key, the time lies in the window of this
  -- endorsement, and the key is not among the revoked ones.
  pub verify_working_key_iff :
      (root_pub : Bytes) (id : ResourceId) (es : List KeyEndorsement) (signer : Bytes) (now : ℕ)
      (revs : RevocationSet)
      → (verify_working_key k root_pub id es signer now revs ≡ ok tt)
        ↔ MaySign k root_pub id es signer now revs
  verify_working_key_iff root_pub id es signer now revs = (
    verify_working_key_sound root_pub id es signer now revs,
    verify_working_key_complete root_pub id es signer now revs,
  )

  pub from_root_public-MaySign :
      (root_pub : Bytes) (id : ResourceId) (es : List KeyEndorsement) (signer : Bytes) (now : ℕ)
      (revs : RevocationSet)
      → MaySign k root_pub id es signer now revs
      → from_root_public k root_pub ≡ ok id
  unfolding from_root_public sha256
  from_root_public-MaySign root_pub id es signer now revs m =
      let long = m.genuine.key_length in ground arith

  -- An endorsement check never reports a revocation.
  verify_endorsement-ne-revoked :
      (root_pub : Bytes) (e : KeyEndorsement) → verify_endorsement k root_pub e ≢ err revoked
  unfolding verify_endorsement signing_bytes verify_raw
  verify_endorsement-ne-revoked root_pub e h = ground arith

  revoked_last :
      (root_pub : Bytes) (id : ResourceId) (es : List KeyEndorsement) (signer : Bytes) (now : ℕ)
      (revs : RevocationSet)
      → verify_working_key k root_pub id es signer now revs ≡ err revoked
      → (verify_working_key k root_pub id es signer now no_revocations ≡ ok tt)
        × (is_revoked revs signer ≡ true)
  unfolding verify_working_key from_root_public is_revoked
  revoked_last root_pub id es signer now revs h =
      elim (Option-cases (find (λ x. x.working_pub == signer) es)) [
        | inl missing ↦ absurd (ground arith)
        | inr (e, found) ↦ ground (arith, verify_endorsement-ne-revoked root_pub e)
      ]

  -- The answer is "revoked" exactly when the key would be accepted but for its revocation.
  pub verify_working_key-revoked :
      (root_pub : Bytes) (id : ResourceId) (es : List KeyEndorsement) (signer : Bytes) (now : ℕ)
      (revs : RevocationSet)
      → (verify_working_key k root_pub id es signer now revs ≡ err revoked)
        ↔ (MaySign k root_pub id es signer now no_revocations × (is_revoked revs signer ≡ true))
  unfolding verify_working_key from_root_public is_revoked
  verify_working_key-revoked root_pub id es signer now revs = (
    (λ h.
        let r = revoked_last root_pub id es signer now revs h in
        (verify_working_key_sound root_pub id es signer now no_revocations r.0, r.1)),
    (λ m.
        let r = verify_working_key_complete root_pub id es signer now no_revocations m.0 in
        ground arith),
  )

  -- Acceptance is an interval of time.
  pub verify_working_key-interval :
      (root_pub : Bytes) (id : ResourceId) (es : List KeyEndorsement) (signer : Bytes)
      (early mid late : ℕ) (revs : RevocationSet)
      → early ≤ mid
      → mid ≤ late
      → verify_working_key k root_pub id es signer early revs ≡ ok tt
      → verify_working_key k root_pub id es signer late revs ≡ ok tt
      → verify_working_key k root_pub id es signer mid revs ≡ ok tt
  unfolding verify_working_key from_root_public
  verify_working_key-interval root_pub id es signer early mid late revs a b p q = ground arith

  find_first :
      (signer : Bytes) (before after : List KeyEndorsement) (e : KeyEndorsement)
      → All (λ (x : KeyEndorsement). x.working_pub ≢ signer) before
      → e.working_pub ≡ signer
      → find (λ x. x.working_pub == signer) (before ++ (e ∷ after)) ≡ some e
  find_first signer [] after e none_before own = ground (arith, list_eq_iff e.working_pub signer)
  find_first signer (x ∷ before) after e (other, others) own =
      ground (arith, list_eq_iff x.working_pub signer, find_first signer before after e others own)

  -- The first endorsement of a key decides: whatever endorsements of other keys stand before it and
  -- whatever endorsements, of the same key too, stand after it, the answer, success or error, is the
  -- one for that endorsement alone.
  pub verify_working_key_first :
      (root_pub : Bytes) (id : ResourceId) (before after : List KeyEndorsement) (e : KeyEndorsement)
      (signer : Bytes) (now : ℕ) (revs : RevocationSet)
      → All (λ (x : KeyEndorsement). x.working_pub ≢ signer) before
      → e.working_pub ≡ signer
      → verify_working_key k root_pub id (before ++ (e ∷ after)) signer now revs
        ≡ verify_working_key k root_pub id (e ∷ []) signer now revs
  unfolding verify_working_key
  verify_working_key_first root_pub id before after e signer now revs others own =
      rw (find_first signer before after e others own, find_first signer [] [] e tt own) refl
