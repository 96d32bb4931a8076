-- ===== src/Interconnect/Grant/Chain.antt =====
-- What a verified chain of links guarantees, and that the check refuses nothing else.
use thicket_ai.Base.{
  ℕ, ◌≤◌, String, ◌≡◌, ◌↔◌, inl, inr, refl, ap, true, false, List, [], ◌∷◌, Option, none, some, ok,
  Bytes, arith, Result-cases, list_eq_iff, List_eq, ℕ_eq, map_err, map_err-eq-ok,
}
use thicket_ai.Core.{ResourceId, KeyEndorsement}
use thicket_ai.Core.Crypto.{verify_signature}
use thicket_ai.Core.Identity.{RevocationSet, is_revoked}
use thicket_ai.Core.Identity.Verify.{MaySign, verify_working_key_sound, verify_working_key_complete}
use thicket_ai.Interconnect.Data.{core, GrantLink}
use thicket_ai.Interconnect.Externals.{Fabric}
use thicket_ai.Interconnect.Grant.{
  allows_capability, prev_sig, link_bytes, check_issuer, check_narrows, check_link, check_links,
}
use thicket_ai.Interconnect.Grant.Narrowing.{Narrows, ensure_narrows_iff}

-- A later link narrows the one before it.
abbrev pub NarrowsLast : Option GrantLink → GrantLink → Type 0
NarrowsLast none link = Unit
NarrowsLast (some before) link = Narrows link.caveats before.caveats

module _ (f : Fabric) (root_pub : Bytes) (target : ResourceId) (endorsements : List KeyEndorsement)
    (capability : String) (now : ℕ) (revs : RevocationSet) where
  -- The head is issued by a key of the target, a later link by the audience of the one before.
  abbrev pub IssuedBy : Option GrantLink → GrantLink → Type 0
  IssuedBy none link = MaySign f.kernel root_pub target endorsements link.issuer_pub now revs
  IssuedBy (some before) link = link.issuer_pub ≡ before.audience_pub

  pub record LinkHolds (before : Option GrantLink) (link : GrantLink) : Type 0 where
    pub issuer_trusted : is_revoked revs link.issuer_pub ≡ false
    pub audience_trusted : is_revoked revs link.audience_pub ≡ false
    pub issued : IssuedBy before link
    pub narrows : NarrowsLast before link
    pub message : Bytes
    pub written :
        link_bytes f target link.issuer_pub link.audience_pub link.caveats (prev_sig before)
        ≡ ok message
    pub signed : verify_signature f.crypto link.issuer_pub message link.sig ≡ ok tt
    pub permits : allows_capability link.caveats capability ≡ true
    pub unexpired : now ≤ link.caveats.not_after

  abbrev pub ChainHolds : Option GrantLink → List GrantLink → Type 0
  ChainHolds before [] = Unit
  ChainHolds before (link ∷ rest) = LinkHolds before link × ChainHolds (some link) rest

  check_issuer_iff :
      (before : Option GrantLink) (link : GrantLink)
      → (check_issuer f root_pub target endorsements capability now revs before link ≡ ok tt)
        ↔ IssuedBy before link
  unfolding check_issuer
  check_issuer_iff none link = (
    (λ h.
        verify_working_key_sound f.kernel root_pub target endorsements link.issuer_pub now revs
          (map_err-eq-ok core _ h)),
    (λ m. ap (map_err core) (
        verify_working_key_complete f.kernel root_pub target endorsements link.issuer_pub now revs
          m)),
  )
  check_issuer_iff (some b) link = ground (arith, list_eq_iff link.issuer_pub b.audience_pub)

  check_narrows_iff :
      (before : Option GrantLink) (link : GrantLink)
      → (check_narrows f root_pub target endorsements capability now revs before link ≡ ok tt)
        ↔ NarrowsLast before link
  unfolding check_narrows
  check_narrows_iff none link = ((λ h. tt), (λ h. refl))
  check_narrows_iff (some b) link = ensure_narrows_iff link.caveats b.caveats

  check_link_sound :
      (before : Option GrantLink) (link : GrantLink)
      → check_link f root_pub target endorsements capability now revs before link ≡ ok tt
      → LinkHolds before link
  unfolding check_link
  check_link_sound before link h =
      elim (Result-cases
        (link_bytes f target link.issuer_pub link.audience_pub link.caveats (prev_sig before))) [
          | inl (e, failed) ↦ absurd (ground arith)
          | inr (m, done) ↦ record {
            issuer_trusted = ground arith;
            audience_trusted = ground arith;
            issued = (check_issuer_iff before link).0 (ground arith);
            narrows = (check_narrows_iff before link).0 (ground arith);
            message = m;
            written = done;
            signed = ground arith;
            permits = ground arith;
            unexpired = ground arith;
          }
        ]

  pub check_link_complete :
      (before : Option GrantLink) (link : GrantLink)
      → LinkHolds before link
      → check_link f root_pub target endorsements capability now revs before link ≡ ok tt
  unfolding check_link
  check_link_complete before link h = ground (
    arith,
    (check_issuer_iff before link).1 h.issued,
    (check_narrows_iff before link).1 h.narrows,
    h.issuer_trusted,
    h.audience_trusted,
    h.written,
    h.signed,
    h.permits,
    h.unexpired,
  )

  pub check_links_sound :
      (before : Option GrantLink) (links : List GrantLink)
      → check_links f root_pub target endorsements capability now revs before links ≡ ok tt
      → ChainHolds before links
  unfolding check_links
  check_links_sound before [] h = tt
  check_links_sound before (link ∷ rest) h = (
    check_link_sound before link (ground arith),
    check_links_sound (some link) rest (ground arith),
  )

  pub check_links_complete :
      (before : Option GrantLink) (links : List GrantLink)
      → ChainHolds before links
      → check_links f root_pub target endorsements capability now revs before links ≡ ok tt
  unfolding check_links
  check_links_complete before [] h = refl
  check_links_complete before (link ∷ rest) h =
      ground (arith, check_link_complete before link h.0, check_links_complete (some link) rest h.1)
