-- ===== src/Tests/Channel.antt =====
-- The theorems on frames, the binding of a channel and the server at concrete data.
use thicket_ai.Base.{ℕ, ◌+◌, ◌≡◌, refl, List, [], ◌∷◌, ◌++◌, ok, as_bytes, Bytes}
use thicket_ai.Core.{Writer}
use thicket_ai.Core.Crypto.{signing_bytes}
use thicket_ai.Core.Identity.{working_public, working_sign}
use thicket_ai.Interconnect.Data.{SignedEnvelope}
use thicket_ai.Interconnect.Envelope.{request, response, base}
use thicket_ai.Net.{LocalIdentity, VerifiedPeer}
use thicket_ai.Net.Framing.{to_be_bytes, write_frame}
use thicket_ai.Net.Secure.{
  static_binding_domain, IdentityProof, binding_message, make_proof, verify_identity,
  make_proof_verifies,
}
use thicket_ai.Net.Server.{Request, Reply}
use thicket_ai.Tests.World.{
  toy_kernel, toy_sign, toy_laws, fit, worker, root_key, worker_key, id, other_id, endorsement,
}
use thicket_ai.Tests.Signing.{worker_may}

write_runs : write_frame (5 ∷ 6 ∷ []) ≡ ok (0 ∷ 0 ∷ 0 ∷ 2 ∷ 5 ∷ 6 ∷ [])
unfolding write_frame to_be_bytes
write_runs = refl

abbrev pub plain : Writer Bytes
plain b = ok b

abbrev pub local : LocalIdentity
local = record {
  id = id;
  root_public_key = root_key;
  endorsements = endorsement 10 20 ∷ [];
  working = worker;
}

abbrev pub static : Bytes
static = 8 ∷ 8 ∷ []

abbrev pub identity : IdentityProof
identity = record {
  id = id;
  root_public_key = root_key;
  endorsements = endorsement 10 20 ∷ [];
  working_pub = worker_key;
  static_sig = toy_sign worker_key (as_bytes static_binding_domain ++ 0 ∷ 8 ∷ 8 ∷ []);
}

abbrev pub worker_peer : VerifiedPeer
worker_peer = record {
  id = id;
  working_pub = worker_key;
  key_not_after = worker_may.endorsement.not_after;
}

pub make_runs : make_proof toy_kernel plain local static ≡ ok identity
unfolding make_proof binding_message signing_bytes working_public working_sign fit
make_runs = refl

pub authenticated : verify_identity toy_kernel plain identity static 15 ≡ ok worker_peer
unfolding working_public fit
authenticated =
    make_proof_verifies toy_kernel plain toy_laws local static 15 identity make_runs worker_may

abbrev inbound : List SignedEnvelope
unfolding request response base
inbound =
    record {
      payload = request (7 ∷ []) id other_id "chat";
      signer_pub = worker_key;
      signature = [];
    }
    ∷ record { payload = response id other_id (4 ∷ []); signer_pub = worker_key; signature = [] }
    ∷ []

abbrev count_calls : ℕ → Request → Reply × ℕ
count_calls n req = (Reply.ok req.body, n + 1)
