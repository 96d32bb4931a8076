-- ===== src/Net/Secure.antt =====
-- crates/thicket-net/src/secure.rs: how the handshake binds a channel to an identity. The messages
-- of the handshake and the sealing of frames are in modules of their own.
use thicket_ai.Base.{
  ℕ, ◌≤◌, ◌≡◌, true, String, List, Result, ok, ◌>>=◌, ◌>>◌, map_err, ok_or, Bytes, find, ◌==◌,
  List_eq, ℕ_eq, arith, inl, inr, Result-cases,
}
use thicket_ai.Core.{ResourceId, KeyEndorsement, Kernel, Writer, PrimitiveLaws}
use thicket_ai.Core.Crypto.{signing_bytes, verify_signature}
use thicket_ai.Core.Crypto.Laws.{verify_raw-sign, verify_raw_iff}
use thicket_ai.Core.Identity.{no_revocations, working_public, working_sign, verify_working_key}
use thicket_ai.Core.Identity.Verify.{MaySign, verify_working_key_sound, verify_working_key_complete}
use thicket_ai.Net.{Error, core, handshake, LocalIdentity, VerifiedPeer}

abbrev pub static_binding_domain : String
static_binding_domain = "thicket-noise-static-v1"

pub record IdentityProof : Type 0 where
  pub id : ResourceId
  pub root_public_key : Bytes
  pub endorsements : List KeyEndorsement
  pub working_pub : Bytes
  pub static_sig : Bytes

-- The CBOR encoder at a byte string is a parameter beside the kernel.
module _ (k : Kernel) (write_bytes : Writer Bytes) where
  unfoldable pub binding_message : Bytes → Result Error Bytes
  binding_message noise_static_pub =
      map_err core (signing_bytes write_bytes static_binding_domain noise_static_pub)

  unfoldable pub make_proof : LocalIdentity → Bytes → Result Error IdentityProof
  make_proof local noise_static_pub = do
    msg ← binding_message noise_static_pub
    ok (record {
      id = local.id;
      root_public_key = local.root_public_key;
      endorsements = local.endorsements;
      working_pub = working_public k local.working;
      static_sig = working_sign k local.working msg;
    })

  -- `verify_proof`
  unfoldable pub verify_identity : IdentityProof → Bytes → ℕ → Result Error VerifiedPeer
  verify_identity proof remote_static now = do
    map_err core (
        verify_working_key k proof.root_public_key proof.id proof.endorsements proof.working_pub now
          no_revocations)
    msg ← binding_message remote_static
    map_err (λ _. handshake) (verify_signature k.crypto proof.working_pub msg proof.static_sig)
    e ← ok_or (find (λ x. x.working_pub == proof.working_pub) proof.endorsements) handshake
    ok (record { id = proof.id; working_pub = proof.working_pub; key_not_after = e.not_after })

  -- What an accepted proof of identity guarantees about the peer.
  pub record Authenticated (proof : IdentityProof) (remote_static : Bytes) (now : ℕ)
      (peer : VerifiedPeer) : Type 0 where
    pub may :
        MaySign k proof.root_public_key proof.id proof.endorsements proof.working_pub now
          no_revocations
    pub message : Bytes
    pub written : signing_bytes write_bytes static_binding_domain remote_static ≡ ok message
    pub bound : k.vk_verify proof.working_pub message proof.static_sig ≡ true
    pub same_id : peer.id ≡ proof.id
    pub same_key : peer.working_pub ≡ proof.working_pub
    pub expiry : peer.key_not_after ≡ may.endorsement.not_after

  -- A handshake authenticates a peer only when the peer's working key may sign for its id, has
  -- signed the static key of this channel, and the recorded expiry, which is that of the key's
  -- endorsement, has not passed.
  pub verify_identity_sound :
      (proof : IdentityProof) (remote_static : Bytes) (now : ℕ) (peer : VerifiedPeer)
      → verify_identity proof remote_static now ≡ ok peer
      → Authenticated proof remote_static now peer × (now ≤ peer.key_not_after)
  unfolding verify_identity binding_message verify_signature
  verify_identity_sound proof remote_static now peer h =
      elim (Result-cases (signing_bytes write_bytes static_binding_domain remote_static)) [
        | inl (e, failed) ↦ absurd (ground arith)
        | inr (m, done) ↦
            let may =
              verify_working_key_sound k proof.root_public_key proof.id proof.endorsements
                proof.working_pub now no_revocations (ground arith) in
            let first = may.first in
            let late = may.unexpired in
            let signed =
              (verify_raw_iff k.crypto proof.working_pub m proof.static_sig).0 (ground arith) in
            (
              record {
                may = may;
                message = m;
                written = done;
                bound = signed.3;
                same_id = ground arith;
                same_key = ground arith;
                expiry = ground arith;
              },
              ground arith,
            )
      ]

  -- The proof that a node makes for its own static key authenticates it, wherever its working key
  -- may sign for its id.
  pub make_proof_verifies :
      (laws : PrimitiveLaws k.crypto) (local : LocalIdentity) (static : Bytes) (now : ℕ)
      (proof : IdentityProof)
      → make_proof local static ≡ ok proof
      → (may : MaySign k local.root_public_key local.id local.endorsements
          (working_public k local.working)
          now
          no_revocations)
      → verify_identity proof static now
        ≡ ok (record {
          id = local.id;
          working_pub = working_public k local.working;
          key_not_after = may.endorsement.not_after;
        })
  unfolding make_proof verify_identity verify_signature working_public working_sign
  make_proof_verifies laws local static now proof h may =
      elim (Result-cases (binding_message static)) [
        | inl (e, failed) ↦ absurd (ground arith)
        | inr (m, done) ↦
            let first = may.first in
            ground (
              arith,
              verify_raw-sign k.crypto laws local.working.signing m,
              verify_working_key_complete k local.root_public_key local.id local.endorsements
                  (k.verifying_key local.working.signing) now no_revocations may,
            )
      ]
