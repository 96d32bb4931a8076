-- ===== src/Interconnect/Handshake/Possession.antt =====
-- A proof answers one challenge.
use thicket_ai.Base.{
  ℕ, List, ◌≡◌, ok, Bytes, arith, Result-cases, inl, inr, as_bytes, ap, ◌∙◌, true,
}
use thicket_ai.Core.{ResourceId, WorkingKey, KeyEndorsement, PrimitiveLaws}
use thicket_ai.Core.Crypto.{signing_bytes, verify_signature}
use thicket_ai.Core.Crypto.Laws.{NulFree, verify_raw-sign, verify_raw_iff, signing_bytes-separates}
use thicket_ai.Core.Identity.{RevocationSet, working_public, working_sign}
use thicket_ai.Core.Identity.Verify.{MaySign, verify_working_key_complete}
use thicket_ai.Interconnect.Data.{Challenge, Proof, ProofView}
use thicket_ai.Interconnect.Externals.{Fabric}
use thicket_ai.Interconnect.Handshake.{handshake_domain, prove, verify_proof}

module _ (f : Fabric) where
  -- The proof that a key makes for a challenge is accepted for that challenge wherever the key may
  -- sign for the id.
  pub prove_verifies :
      (laws : PrimitiveLaws f.crypto) (c : Challenge) (id : ResourceId) (working : WorkingKey)
      (p : Proof) (root_pub : Bytes) (es : List KeyEndorsement) (now : ℕ) (revs : RevocationSet)
      → prove f c id working ≡ ok p
      → MaySign f.kernel root_pub id es (working_public f.kernel working) now revs
      → verify_proof f c p root_pub es now revs ≡ ok tt
  unfolding prove verify_proof verify_signature working_public working_sign
  prove_verifies laws c id working p root_pub es now revs h may =
      elim (Result-cases
        (signing_bytes f.write_proof handshake_domain (record { nonce = c.nonce; id = id }))) [
          | inl (x, failed) ↦ absurd (ground arith)
          | inr (m, written) ↦ ground (
            arith,
            verify_raw-sign f.crypto laws working.signing m,
            verify_working_key_complete f.kernel root_pub id es (f.verifying_key working.signing)
                now revs may,
          )
        ]

  handshake_domain-NulFree : NulFree handshake_domain
  unfolding as_bytes
  handshake_domain-NulFree = omega arith

  proof_message :
      (c : Challenge) (p : Proof) (root_pub : Bytes) (es : List KeyEndorsement) (now : ℕ)
      (revs : RevocationSet)
      → verify_proof f c p root_pub es now revs ≡ ok tt
      → (m : Bytes) × (signing_bytes f.write_proof handshake_domain
            (record { nonce = c.nonce; id = p.id })
          ≡ ok m)
        × (f.vk_verify p.working_pub m p.sig ≡ true)
  unfolding verify_proof verify_signature
  proof_message c p root_pub es now revs h =
      elim (Result-cases
        (signing_bytes f.write_proof handshake_domain (record { nonce = c.nonce; id = p.id }))) [
          | inl (e, failed) ↦ absurd (ground arith)
          | inr (m, written) ↦
              (m, written, ((verify_raw_iff f.crypto p.working_pub m p.sig).0 (ground arith)).3)
        ]

  -- A proof cannot be replayed: where its signature fits one message at most and the encoding
  -- shows the nonce, two challenges that it is accepted for have the same nonce.
  pub verify_proof_once :
      (c c' : Challenge) (p : Proof) (root_pub : Bytes) (es : List KeyEndorsement) (now now' : ℕ)
      (revs revs' : RevocationSet)
      → ((v w : ProofView) → f.write_proof v ≡ f.write_proof w → v.nonce ≡ w.nonce)
      → ((m m' : Bytes)
          → f.vk_verify p.working_pub m p.sig ≡ true
          → f.vk_verify p.working_pub m' p.sig ≡ true
          → m ≡ m')
      → verify_proof f c p root_pub es now revs ≡ ok tt
      → verify_proof f c' p root_pub es now' revs' ≡ ok tt
      → c.nonce ≡ c'.nonce
  verify_proof_once c c' p root_pub es now now' revs revs' shows only h h' =
      let a = proof_message c p root_pub es now revs h in
      let b = proof_message c' p root_pub es now' revs' h' in
      shows (record { nonce = c.nonce; id = p.id }) (record { nonce = c'.nonce; id = p.id })
        (signing_bytes-separates f.write_proof f.write_proof handshake_domain handshake_domain
          (record { nonce = c.nonce; id = p.id }) (record { nonce = c'.nonce; id = p.id }) b.0
          handshake_domain-NulFree handshake_domain-NulFree (a.1 ∙ ap ok (only a.0 b.0 a.2 b.2))
          b.1).1
