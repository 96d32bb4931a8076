-- ===== src/Core/Identity/Endorsing.antt =====
-- What the root key endorses is accepted.
use thicket_ai.Base.{
  ℕ, ◌≤◌, ◌≡◌, List, ◌∷◌, ok, Bytes, List_eq, ℕ_eq, list_eq_iff, arith, false, Result-cases, inl,
  inr,
}
use thicket_ai.Core.Data.{ResourceId, id_eq_iff, RootKey, KeyEndorsement}
use thicket_ai.Core.Externals.{Kernel, PrimitiveLaws}
use thicket_ai.Core.Crypto.{signing_bytes}
use thicket_ai.Core.Crypto.Laws.{verify_raw-sign}
use thicket_ai.Core.Identity.{
  RevocationSet, is_revoked, root_public, root_id, endorse, endorse_domain, verify_endorsement,
  verify_working_key,
}

module _ (k : Kernel) where
  pub endorse_fields :
      (root : RootKey) (working_pub : Bytes) (nb na : ℕ) (e : KeyEndorsement)
      → endorse k root working_pub nb na ≡ ok e
      → (e.working_pub ≡ working_pub) × (e.not_before ≡ nb) × (e.not_after ≡ na)
  unfolding endorse
  endorse_fields root working_pub nb na e h =
      elim (Result-cases (
        signing_bytes k.write_endorsement endorse_domain
          (record { working_pub = working_pub; not_before = nb; not_after = na }))) [
            | inl (x, failed) ↦ absurd (ground arith)
            | inr (m, written) ↦ ground arith
          ]

  module _ (laws : PrimitiveLaws k.crypto) where
    -- `expect` in `RootKey::id` never panics.
    pub root_id-total :
        (root : RootKey)
        → root_id k root ≡ ok (record { as_id_bytes = k.digest (root_public k root) })
    unfolding root_id
    root_id-total root = ground (arith, laws.length-verifying_key root.signing)

    pub verify-endorse :
        (root : RootKey) (working_pub : Bytes) (nb na : ℕ) (e : KeyEndorsement)
        → endorse k root working_pub nb na ≡ ok e
        → verify_endorsement k (root_public k root) e ≡ ok tt
    unfolding endorse verify_endorsement root_public
    verify-endorse root working_pub nb na e h =
        elim (Result-cases (
          signing_bytes k.write_endorsement endorse_domain
            (record { working_pub = working_pub; not_before = nb; not_after = na }))) [
              | inl (x, failed) ↦ absurd (ground arith)
              | inr (m, written) ↦ ground (arith, verify_raw-sign k.crypto laws root.signing m)
            ]

    -- A key that the root has endorsed is accepted inside its window, until it is revoked.
    pub endorse_verifies :
        (root : RootKey) (working_pub : Bytes) (nb na now : ℕ) (id : ResourceId)
        (e : KeyEndorsement) (rest : List KeyEndorsement) (revs : RevocationSet)
        → root_id k root ≡ ok id
        → endorse k root working_pub nb na ≡ ok e
        → nb ≤ now
        → now ≤ na
        → is_revoked revs working_pub ≡ false
        → verify_working_key k (root_public k root) id (e ∷ rest) working_pub now revs ≡ ok tt
    unfolding verify_working_key root_id
    endorse_verifies root working_pub nb na now id e rest revs hid h a b t =
        let f = endorse_fields root working_pub nb na e h in
        ground (
          arith,
          verify-endorse root working_pub nb na e h,
          id_eq_iff id id,
          list_eq_iff e.working_pub working_pub,
        )
