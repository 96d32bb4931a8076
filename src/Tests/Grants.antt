-- ===== src/Tests/Grants.antt =====
-- The theorems on grants, envelopes, contexts and proofs at concrete data.
use thicket_ai.Base.{
  ℕ, ◌-◌, ◌≡◌, ◌↔◌, refl, true, [], ◌∷◌, ◌++◌, none, some, ok, as_bytes, Bytes, arith, Has, list_eq,
  List,
}
use thicket_ai.Base.Dict
use thicket_ai.Core.Crypto.{signing_bytes}
use thicket_ai.Core.Identity.{no_revocations, is_revoked, working_public, working_sign}
use thicket_ai.Core.Identity.Verify.{MaySign}
use thicket_ai.Interconnect.Data.{Caveats, GrantLink, Grant, Context, no_context}
use thicket_ai.Interconnect.Context.{deadline_passed}
use thicket_ai.Interconnect.Context.Tightening.{Hop, descend, total_spent, descend_bounds}
use thicket_ai.Interconnect.Grant.{
  grant_domain, allows_capability, is_loosened, ensure_narrows, satisfies, link_bytes, issue,
  attenuate, verify_grant,
}
use thicket_ai.Interconnect.Grant.Narrowing.{Narrows}
use thicket_ai.Interconnect.Grant.Authority.{Authorizes, verify_grant_iff, verify_grant-Narrows}
use thicket_ai.Interconnect.Grant.Delegation.{attenuate_verifies, issue_verifies}
use thicket_ai.Tests.World.{
  toy_fabric, toy_sign, toy_laws, fit, worker, delegate, root_key, worker_key, delegate_key, id,
  endorsement,
}
use thicket_ai.Tests.Signing.{worker_may}

abbrev pub wide : Caveats
wide = record { capabilities = "*" ∷ []; not_after = 18; constraints = ("zone", "eu") ∷ [] }

abbrev narrow : Caveats
narrow = record { capabilities = "chat" ∷ []; not_after = 16; constraints = ("zone", "eu") ∷ [] }

abbrev guest_key : Bytes
guest_key = fit 32 (9 ∷ [])

abbrev pub head : GrantLink
head = record {
  issuer_pub = worker_key;
  audience_pub = delegate_key;
  caveats = wide;
  sig = toy_sign worker_key (as_bytes grant_domain ++ 0 ∷ 18 ∷ delegate_key);
}

abbrev second : GrantLink
second = record {
  issuer_pub = delegate_key;
  audience_pub = guest_key;
  caveats = narrow;
  sig = toy_sign delegate_key (as_bytes grant_domain ++ 0 ∷ 16 ∷ guest_key);
}

abbrev pub grant : Grant
grant = record { target = id; links = head ∷ [] }

abbrev handed_on : Grant
handed_on = record { target = id; links = head ∷ second ∷ [] }

issue_runs : issue toy_fabric id worker delegate_key wide ≡ ok grant
unfolding issue link_bytes signing_bytes working_public working_sign fit
issue_runs = refl

attenuate_runs : attenuate toy_fabric grant delegate guest_key narrow ≡ ok handed_on
unfolding attenuate ensure_narrows link_bytes signing_bytes working_public working_sign fit list_eq
    is_loosened Dict.get
attenuate_runs = refl

issue_verifies_example :
    verify_grant toy_fabric grant root_key
      (endorsement 10 20 ∷ [])
      delegate_key
      "chat"
      15
      no_revocations
    ≡ ok tt
unfolding allows_capability is_revoked working_public fit
issue_verifies_example =
    issue_verifies toy_fabric toy_laws root_key (endorsement 10 20 ∷ []) "chat" 15 no_revocations id
      worker delegate_key wide grant worker_may issue_runs refl (omega arith) refl

granted :
    verify_grant toy_fabric grant root_key
      (endorsement 10 20 ∷ [])
      (working_public toy_fabric.kernel delegate)
      "chat"
      15
      no_revocations
    ≡ ok tt
unfolding allows_capability is_revoked working_public fit
granted =
    issue_verifies toy_fabric toy_laws root_key (endorsement 10 20 ∷ []) "chat" 15 no_revocations id
      worker delegate_key wide grant worker_may issue_runs refl (omega arith) refl

attenuate_verifies_example :
    verify_grant toy_fabric handed_on root_key
      (endorsement 10 20 ∷ [])
      guest_key
      "chat"
      15
      no_revocations
    ≡ ok tt
unfolding allows_capability is_revoked
attenuate_verifies_example =
    attenuate_verifies toy_fabric toy_laws root_key (endorsement 10 20 ∷ []) "chat" 15
      no_revocations grant delegate guest_key narrow handed_on granted attenuate_runs refl
      (omega arith) refl

delegated :
    verify_grant toy_fabric handed_on root_key
      (endorsement 10 20 ∷ [])
      guest_key
      "chat"
      15
      no_revocations
    ≡ ok tt
unfolding allows_capability is_revoked
delegated =
    attenuate_verifies toy_fabric toy_laws root_key (endorsement 10 20 ∷ []) "chat" 15
      no_revocations grant delegate guest_key narrow handed_on granted attenuate_runs refl
      (omega arith) refl

verify_grant_iff_example :
    (verify_grant toy_fabric handed_on root_key
        (endorsement 10 20 ∷ [])
        guest_key
        "chat"
        15
        no_revocations
      ≡ ok tt)
    ↔ Authorizes toy_fabric root_key
        (endorsement 10 20 ∷ [])
        guest_key
        "chat"
        15
        no_revocations
        handed_on
verify_grant_iff_example =
    verify_grant_iff toy_fabric root_key (endorsement 10 20 ∷ []) guest_key "chat" 15 no_revocations
      handed_on

verify_grant-Narrows_example :
    MaySign toy_fabric.kernel root_key id (endorsement 10 20 ∷ []) worker_key 15 no_revocations
    × ((link : GrantLink) → Has link (second ∷ []) → Narrows link.caveats wide)
verify_grant-Narrows_example =
    verify_grant-Narrows toy_fabric root_key (endorsement 10 20 ∷ []) guest_key "chat" 15
      no_revocations id head (second ∷ []) delegated

satisfied : satisfies handed_on (("zone", "eu") ∷ []) ≡ true
unfolding satisfies Dict.get
satisfied = refl

abbrev context : Context
context = record no_context { deadline = some 50; budget = some 10 }

abbrev hops : List Hop
hops =
    record { span = 1 ∷ []; local = none; spent = 4 }
    ∷ record { span = 2 ∷ []; local = some 40; spent = 9 }
    ∷ []

descend_bounds_example :
    (deadline_passed context 51 ≡ true → deadline_passed (descend context hops) 51 ≡ true)
    × ((b : ℕ)
        → context.budget ≡ some b
        → (descend context hops).budget ≡ some (b - total_spent hops))
descend_bounds_example = descend_bounds context hops 51
