-- ===== src/Interconnect/Handshake.antt =====
-- crates/thicket-interconnect/src/handshake.rs. The nonce of a challenge comes from the system's
-- randomness: a challenge is an argument.
pub mod Possession
use thicket_ai.Base.{ℕ, String, List, ⊤, Result, ok, err, ◌>>=◌, ◌>>◌, map_err, Bytes}
use thicket_ai.Core.{ResourceId, WorkingKey, KeyEndorsement}
use thicket_ai.Core.Crypto.{signing_bytes, verify_signature}
use thicket_ai.Core.Identity.{RevocationSet, working_public, working_sign, verify_working_key}
use thicket_ai.Interconnect.Data.{Error, core, bad_proof, Challenge, Proof}
use thicket_ai.Interconnect.Externals.{Fabric}

abbrev pub handshake_domain : String
handshake_domain = "thicket-handshake-v1"

-- `Challenge::new`, of the 32 bytes that `fresh_bytes` draws
abbrev pub new_challenge : Bytes → Challenge
new_challenge fresh = record { nonce = fresh }

module _ (f : Fabric) where
  unfoldable pub prove : Challenge → ResourceId → WorkingKey → Result Error Proof
  prove challenge id working = do
    msg ←
        map_err core (
          signing_bytes f.write_proof handshake_domain
            (record { nonce = challenge.nonce; id = id }))
    ok (record {
      id = id;
      working_pub = working_public f.kernel working;
      sig = working_sign f.kernel working msg;
    })

  unfoldable pub verify_proof :
      Challenge → Proof → Bytes → List KeyEndorsement → ℕ → RevocationSet → Result Error ⊤
  verify_proof challenge proof peer_root_pub peer_endorsements now revocations = do
    map_err core (
        verify_working_key f.kernel peer_root_pub proof.id peer_endorsements proof.working_pub now
          revocations)
    msg ← map_err core (
        signing_bytes f.write_proof handshake_domain
          (record { nonce = challenge.nonce; id = proof.id }))
    map_err (λ _. bad_proof) (verify_signature f.crypto proof.working_pub msg proof.sig)
