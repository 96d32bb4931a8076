-- ===== src/Interconnect/Envelope/Signing.antt =====
-- Signing and verifying envelopes.
use thicket_ai.Base.{
  ℕ, List, ◌≡◌, ok, Bytes, arith, Result-cases, inl, inr, list_eq_iff, eq_refl, ℕ_eq, List_eq, ◌↔◌,
}
use thicket_ai.Core.{WorkingKey, KeyEndorsement, PrimitiveLaws}
use thicket_ai.Core.Crypto.{signing_bytes, verify_signature}
use thicket_ai.Core.Crypto.Laws.{verify_raw-sign}
use thicket_ai.Core.Identity.{RevocationSet, working_public, working_sign}
use thicket_ai.Core.Identity.Verify.{MaySign, verify_working_key_complete}
use thicket_ai.Interconnect.Data.{EnvelopePayload, SignedEnvelope}
use thicket_ai.Interconnect.Externals.{Fabric}
use thicket_ai.Interconnect.Envelope.{
  envelope_domain, envelope_signing_input, sign_envelope, verify_with_key, verify_envelope,
}

module _ (f : Fabric) where
  -- On an open channel an envelope is accepted exactly when it names the channel's key as its
  -- signer and Ed25519 accepts its signature, by a key and of a length that are well formed, for
  -- the payload's signing input.
  pub verify_with_key_iff :
      (e : SignedEnvelope) (key : Bytes)
      → (verify_with_key f e key ≡ ok tt) ↔ (
          (e.signer_pub ≡ key)
          × (m : Bytes) × (envelope_signing_input f e.payload ≡ ok m)
          × (verify_signature f.crypto key m e.signature ≡ ok tt))
  unfolding verify_with_key envelope_signing_input
  verify_with_key_iff e key = (
    (λ h. elim (Result-cases (signing_bytes f.write_envelope envelope_domain e.payload)) [
      | inl (x, failed) ↦ absurd (ground arith)
      | inr (m, written) ↦
          let same : e.signer_pub ≡ key = ground (arith, list_eq_iff e.signer_pub key) in
          (same, m, ground arith, ground arith)
    ]),
    (λ w.
        let a = w.0 in let b = w.2 in let c = w.3 in ground (arith, list_eq_iff e.signer_pub key)),
  )

  -- On a channel of the key that signed it an envelope is accepted.
  pub verify_with_key-sign_envelope :
      (laws : PrimitiveLaws f.crypto) (payload : EnvelopePayload) (working : WorkingKey)
      (e : SignedEnvelope)
      → sign_envelope f payload working ≡ ok e
      → (verify_with_key f e (working_public f.kernel working) ≡ ok tt) × (e.payload ≡ payload)
  unfolding sign_envelope verify_with_key verify_signature working_public working_sign
  verify_with_key-sign_envelope laws payload working e h =
      elim (Result-cases (signing_bytes f.write_envelope envelope_domain payload)) [
        | inl (x, failed) ↦ absurd (ground arith)
        | inr (m, written) ↦ (
          ground (
            arith,
            verify_raw-sign f.crypto laws working.signing m,
            eq_refl (f.verifying_key working.signing),
          ),
          ground arith,
        )
      ]

  -- An envelope signed by a key that may sign for its sender is accepted on a channel of that key
  -- and by the full check.
  pub sign_envelope_verifies :
      (laws : PrimitiveLaws f.crypto) (payload : EnvelopePayload) (working : WorkingKey)
      (e : SignedEnvelope) (root_pub : Bytes) (es : List KeyEndorsement) (now : ℕ)
      (revs : RevocationSet)
      → sign_envelope f payload working ≡ ok e
      → MaySign f.kernel root_pub payload.from es (working_public f.kernel working) now revs
      → (verify_with_key f e (working_public f.kernel working) ≡ ok tt)
        × (verify_envelope f e root_pub es now revs ≡ ok tt)
  unfolding sign_envelope verify_with_key verify_envelope verify_signature working_public
      working_sign
  sign_envelope_verifies laws payload working e root_pub es now revs h may =
      elim (Result-cases (signing_bytes f.write_envelope envelope_domain payload)) [
        | inl (x, failed) ↦ absurd (ground arith)
        | inr (m, written) ↦ (
          ground (
            arith,
            verify_raw-sign f.crypto laws working.signing m,
            eq_refl (f.verifying_key working.signing),
          ),
          ground (
            arith,
            verify_raw-sign f.crypto laws working.signing m,
            verify_working_key_complete f.kernel root_pub payload.from es
                (f.verifying_key working.signing) now revs may,
          ),
        )
      ]

  -- A signature that is good on the channel of a key that may sign is good for the full check.
  pub verify_with_key-verify_envelope :
      (e : SignedEnvelope) (key root_pub : Bytes) (es : List KeyEndorsement) (now : ℕ)
      (revs : RevocationSet)
      → verify_with_key f e key ≡ ok tt
      → MaySign f.kernel root_pub e.payload.from es key now revs
      → verify_envelope f e root_pub es now revs ≡ ok tt
  unfolding verify_envelope verify_with_key
  verify_with_key-verify_envelope e key root_pub es now revs h may =
      let named : e.signer_pub ≡ key = ((verify_with_key_iff e key).0 h).0 in
      let known =
        verify_working_key_complete f.kernel root_pub e.payload.from es e.signer_pub now revs
          (rw named may) in
      ground arith
