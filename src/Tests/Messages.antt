-- ===== src/Tests/Messages.antt =====
-- The theorems on envelopes and proofs at concrete data.
use thicket_ai.Base.{◌≡◌, refl, [], ◌∷◌, ◌++◌, ok, as_bytes}
use thicket_ai.Core.Crypto.{signing_bytes}
use thicket_ai.Core.Identity.{no_revocations, working_public, working_sign}
use thicket_ai.Interconnect.Data.{EnvelopePayload, SignedEnvelope, Challenge, Proof}
use thicket_ai.Interconnect.Envelope.{envelope_domain, request, base, sign_envelope}
use thicket_ai.Interconnect.Handshake.{handshake_domain, prove, verify_proof}
use thicket_ai.Interconnect.Handshake.Possession.{prove_verifies, verify_proof_once}
use thicket_ai.Tests.World.{
  toy_fabric, toy_sign, toy_laws, fit, worker, root_key, worker_key, id, other_id, endorsement,
}
use thicket_ai.Tests.Primitives.{toy_once, shows_nonce}
use thicket_ai.Tests.Signing.{worker_may}

abbrev payload : EnvelopePayload
unfolding request base
payload = request (7 ∷ 7 ∷ []) id other_id "chat"

abbrev envelope : SignedEnvelope
envelope = record {
  payload = payload;
  signer_pub = worker_key;
  signature = toy_sign worker_key (as_bytes envelope_domain ++ 0 ∷ 1 ∷ 7 ∷ 7 ∷ []);
}

sign_runs : sign_envelope toy_fabric payload worker ≡ ok envelope
unfolding sign_envelope signing_bytes working_public working_sign fit request base
sign_runs = refl

abbrev challenge : Challenge
challenge = record { nonce = 3 ∷ 1 ∷ 4 ∷ [] }

abbrev proof : Proof
proof = record {
  id = id;
  working_pub = worker_key;
  sig = toy_sign worker_key (as_bytes handshake_domain ++ 0 ∷ 3 ∷ 1 ∷ 4 ∷ []);
}

prove_runs : prove toy_fabric challenge id worker ≡ ok proof
unfolding prove signing_bytes working_public working_sign fit
prove_runs = refl

proved :
    verify_proof toy_fabric challenge proof root_key (endorsement 10 20 ∷ []) 15 no_revocations
    ≡ ok tt
unfolding working_public fit
proved =
    prove_verifies toy_fabric toy_laws challenge id worker proof root_key (endorsement 10 20 ∷ [])
      15 no_revocations prove_runs worker_may

verify_proof_once_example : challenge.nonce ≡ challenge.nonce
verify_proof_once_example =
    verify_proof_once toy_fabric challenge challenge proof root_key (endorsement 10 20 ∷ []) 15 15
      no_revocations no_revocations shows_nonce (λ m m'. toy_once worker_key proof.sig m m') proved
      proved
