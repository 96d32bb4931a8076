-- ===== src/Interconnect/Grant/Authority.antt =====
-- When a grant authorizes a caller, and what follows for every link of it.
use thicket_ai.Base.{
  ℕ, ◌≤◌, String, ◌≡◌, ◌↔◌, inl, inr, refl, true, false, List, [], ◌∷◌, Option, none, some, ok,
  Bytes, Has, last, is_nil, arith, Option-cases, Result-cases, list_eq_iff, List_eq, ℕ_eq,
}
use thicket_ai.Core.{ResourceId, id_eq_iff, KeyEndorsement}
use thicket_ai.Core.Identity.{RevocationSet, is_revoked, from_root_public}
use thicket_ai.Core.Identity.Verify.{MaySign}
use thicket_ai.Interconnect.Data.{GrantLink, Grant}
use thicket_ai.Interconnect.Externals.{Fabric}
use thicket_ai.Interconnect.Grant.{allows_capability, verify_grant}
use thicket_ai.Interconnect.Grant.Narrowing.{Narrows, Narrows-trans}
use thicket_ai.Interconnect.Grant.Chain.{ChainHolds, check_links_sound, check_links_complete}

module _ (f : Fabric) (root_pub : Bytes) (endorsements : List KeyEndorsement) (caller : Bytes)
    (capability : String) (now : ℕ) (revs : RevocationSet) (g : Grant) where
  -- The grant is for this target, its chain holds link by link, and its last audience is the caller.
  pub record Authorizes : Type 0 where
    pub target_bound : from_root_public f.kernel root_pub ≡ ok g.target
    pub chain : ChainHolds f root_pub g.target endorsements capability now revs none g.links
    pub holder : GrantLink
    pub held : last g.links ≡ some holder
    pub for_caller : holder.audience_pub ≡ caller

  verify_grant_sound :
      verify_grant f g root_pub endorsements caller capability now revs ≡ ok tt → Authorizes
  unfolding verify_grant
  verify_grant_sound h = elim (Result-cases (from_root_public f.kernel root_pub)) [
    | inl (e, failed) ↦ absurd (ground arith)
    | inr (id, derived) ↦ elim (Option-cases (last g.links)) [
      | inl empty ↦ absurd (ground arith)
      | inr (link, found) ↦ record {
        target_bound = ground (arith, id_eq_iff id g.target);
        chain =
            check_links_sound f root_pub g.target endorsements capability now revs none g.links
              (ground arith);
        holder = link;
        held = found;
        for_caller = ground (arith, list_eq_iff link.audience_pub caller);
      }
    ]
  ]

  last-nonempty :
      (links : List GrantLink) {link : GrantLink} → last links ≡ some link → is_nil links ≡ false
  last-nonempty [] h = ground arith
  last-nonempty (x ∷ xs) h = refl

  verify_grant_complete :
      Authorizes → verify_grant f g root_pub endorsements caller capability now revs ≡ ok tt
  unfolding verify_grant
  verify_grant_complete a = ground (
    arith,
    a.target_bound,
    last-nonempty g.links a.held,
    a.held,
    a.for_caller,
    id_eq_iff g.target g.target,
    list_eq_iff a.holder.audience_pub caller,
    check_links_complete f root_pub g.target endorsements capability now revs none g.links a.chain,
  )

  -- `verify` accepts a grant exactly when it authorizes the caller.
  pub verify_grant_iff :
      (verify_grant f g root_pub endorsements caller capability now revs ≡ ok tt) ↔ Authorizes
  verify_grant_iff = (verify_grant_sound, verify_grant_complete)

module _ (f : Fabric) (root_pub : Bytes) (target : ResourceId) (endorsements : List KeyEndorsement)
    (capability : String) (now : ℕ) (revs : RevocationSet) where
  chain_link :
      (before : Option GrantLink) (links : List GrantLink) (link : GrantLink)
      → ChainHolds f root_pub target endorsements capability now revs before links
      → Has link links
      → (is_revoked revs link.issuer_pub ≡ false)
        × (is_revoked revs link.audience_pub ≡ false)
        × (allows_capability link.caveats capability ≡ true)
        × (now ≤ link.caveats.not_after)
  chain_link before [] link h m = absurd m
  chain_link before (x ∷ xs) link h (inl e) =
      rw e (h.0.issuer_trusted, h.0.audience_trusted, h.0.permits, h.0.unexpired)
  chain_link before (x ∷ xs) link h (inr m) = chain_link (some x) xs link h.1 m

  chain-Narrows :
      (head : GrantLink) (links : List GrantLink) (link : GrantLink)
      → ChainHolds f root_pub target endorsements capability now revs (some head) links
      → Has link links
      → Narrows link.caveats head.caveats
  chain-Narrows head [] link h m = absurd m
  chain-Narrows head (x ∷ xs) link h (inl e) = rw e h.0.narrows
  chain-Narrows head (x ∷ xs) link h (inr m) =
      Narrows-trans (chain-Narrows x xs link h.1 m) h.0.narrows

module _ (f : Fabric) (root_pub : Bytes) (endorsements : List KeyEndorsement) (caller : Bytes)
    (capability : String) (now : ℕ) (revs : RevocationSet) where
  -- In an accepted grant no link has a revoked issuer or audience, every link permits the
  -- capability, and none has ended.
  pub verify_grant-links :
      (g : Grant) (link : GrantLink)
      → verify_grant f g root_pub endorsements caller capability now revs ≡ ok tt
      → Has link g.links
      → (is_revoked revs link.issuer_pub ≡ false)
        × (is_revoked revs link.audience_pub ≡ false)
        × (allows_capability link.caveats capability ≡ true)
        × (now ≤ link.caveats.not_after)
  verify_grant-links g link h m =
      chain_link f root_pub g.target endorsements capability now revs none g.links link
        ((verify_grant_iff f root_pub endorsements caller capability now revs g).0 h).chain m

  -- In an accepted grant the head is issued by a key that may sign for the target, and the caveats
  -- of every later link narrow those of the head.
  pub verify_grant-Narrows :
      (target : ResourceId) (head : GrantLink) (rest : List GrantLink)
      → verify_grant f
          (record { target = target; links = head ∷ rest })
          root_pub
          endorsements
          caller
          capability
          now
          revs
        ≡ ok tt
      → MaySign f.kernel root_pub target endorsements head.issuer_pub now revs
        × ((link : GrantLink) → Has link rest → Narrows link.caveats head.caveats)
  verify_grant-Narrows target head rest h =
      let c =
        ((verify_grant_iff f root_pub endorsements caller capability now revs
            (record { target = target; links = head ∷ rest })).0
          h).chain in
      (
        c.0.issued,
        λ link m.
            chain-Narrows f root_pub target endorsements capability now revs head rest link c.1 m,
      )
