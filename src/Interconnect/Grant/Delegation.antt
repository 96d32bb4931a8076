-- ===== src/Interconnect/Grant/Delegation.antt =====
-- Issuing and attenuating: what the holder of a grant can hand on.
use thicket_ai.Base.{
  ℕ, ◌≤◌, String, ◌≡◌, ◌≢◌, inl, inr, refl, Bool, true, false, List, [], ◌∷◌, ◌++◌, Option, none,
  some, ok, err, Bytes, all, all_of_Has, all-Has, last, last-append, last-Has, arith, Option-cases,
  Result-cases, ◌==◌, list_eq_iff, Option_eq, String_eq, List_eq, ℕ_eq,
}
use thicket_ai.Base.Dict
use thicket_ai.Base.Dict.{Dict, get-Has}
use thicket_ai.Core.{ResourceId, KeyEndorsement, WorkingKey, PrimitiveLaws}
use thicket_ai.Core.Crypto.{verify_signature}
use thicket_ai.Core.Crypto.Laws.{verify_raw-sign}
use thicket_ai.Core.Identity.{RevocationSet, is_revoked, working_public, working_sign}
use thicket_ai.Core.Identity.Verify.{MaySign, MaySign-not_revoked, from_root_public-MaySign}
use thicket_ai.Interconnect.Data.{not_holder, Caveats, GrantLink, Grant}
use thicket_ai.Interconnect.Externals.{Fabric}
use thicket_ai.Interconnect.Grant.{
  allows_capability, link_bytes, issue, attenuate, satisfies, verify_grant,
}
use thicket_ai.Interconnect.Grant.Narrowing.{Narrows, ensure_narrows_iff}
use thicket_ai.Interconnect.Grant.Chain.{LinkHolds, ChainHolds}
use thicket_ai.Interconnect.Grant.Authority.{verify_grant_iff, verify_grant-links}

abbrev matches : Dict String String → String × String → Bool
matches attributes e = Dict.get e.0 attributes == some e.1

matches-all-Narrows :
    (attributes : Dict String String) {child parent : Caveats}
    → Narrows child parent
    → all (matches attributes) child.constraints ≡ true
    → all (matches attributes) parent.constraints ≡ true
matches-all-Narrows attributes {child} {parent} n h =
    all_of_Has (matches attributes) parent.constraints (λ e m.
      all-Has (matches attributes) child.constraints e h
        (get-Has e.0 e.1 child.constraints (n.repeats e.0 e.1 m)))

satisfies-last :
    (g : Grant) (link : GrantLink) (attributes : Dict String String)
    → last g.links ≡ some link
    → satisfies g attributes ≡ true
    → all (matches attributes) link.caveats.constraints ≡ true
unfolding satisfies
satisfies-last g link attributes e h = rw (e, satisfies) at h

module _ (f : Fabric) where
  -- the link that `attenuate` appends
  abbrev pub new_link : WorkingKey → Bytes → Caveats → Bytes → GrantLink
  new_link holder audience caveats message = record {
    issuer_pub = working_public f.kernel holder;
    audience_pub = audience;
    caveats = caveats;
    sig = working_sign f.kernel holder message;
  }

  -- What a successful call of `attenuate` has made.
  pub record Attenuated (g : Grant) (holder : WorkingKey) (audience : Bytes) (caveats : Caveats)
      (g' : Grant) : Type 0 where
    pub before : GrantLink
    pub was_last : last g.links ≡ some before
    pub by_holder : working_public f.kernel holder ≡ before.audience_pub
    pub narrows : Narrows caveats before.caveats
    pub message : Bytes
    pub written :
        link_bytes f g.target (working_public f.kernel holder) audience caveats before.sig
        ≡ ok message
    pub made : g' ≡ record {
      target = g.target;
      links = g.links ++ new_link holder audience caveats message ∷ [];
    }

  pub attenuate_sound :
      (g : Grant) (holder : WorkingKey) (audience : Bytes) (caveats : Caveats) (g' : Grant)
      → attenuate f g holder audience caveats ≡ ok g'
      → Attenuated g holder audience caveats g'
  unfolding attenuate
  attenuate_sound g holder audience caveats g' h = elim (Option-cases (last g.links)) [
    | inl empty ↦ absurd (ground arith)
    | inr (b, found) ↦
        elim (Result-cases
          (link_bytes f g.target (working_public f.kernel holder) audience caveats b.sig)) [
            | inl (e, failed) ↦ absurd (ground arith)
            | inr (m, done) ↦ record {
              before = b;
              was_last = found;
              by_holder =
                  ground (arith, list_eq_iff (working_public f.kernel holder) b.audience_pub);
              narrows = (ensure_narrows_iff caveats b.caveats).0 (ground arith);
              message = m;
              written = done;
              made = ground arith;
            }
          ]
  ]

  -- Only the current audience can attenuate.
  pub attenuate-not_holder :
      (g : Grant) (holder : WorkingKey) (audience : Bytes) (caveats : Caveats) (before : GrantLink)
      → last g.links ≡ some before
      → working_public f.kernel holder ≢ before.audience_pub
      → attenuate f g holder audience caveats ≡ err not_holder
  unfolding attenuate
  attenuate-not_holder g holder audience caveats before h n =
      ground (arith, list_eq_iff (working_public f.kernel holder) before.audience_pub)

  -- Whatever satisfies the constraints of an attenuated grant satisfies those of the grant.
  pub satisfies-attenuate :
      (g : Grant) (holder : WorkingKey) (audience : Bytes) (caveats : Caveats) (g' : Grant)
      (attributes : Dict String String)
      → attenuate f g holder audience caveats ≡ ok g'
      → satisfies g' attributes ≡ true
      → satisfies g attributes ≡ true
  unfolding satisfies
  satisfies-attenuate g holder audience caveats g' attributes h s =
      let a = attenuate_sound g holder audience caveats g' h in
      rw (a.was_last, satisfies)
        (matches-all-Narrows attributes a.narrows (
          satisfies-last g' (new_link holder audience caveats a.message) attributes
            (rw a.made (last-append g.links (new_link holder audience caveats a.message))) s))

module _ (f : Fabric) (laws : PrimitiveLaws f.crypto) (root_pub : Bytes) (target : ResourceId)
    (endorsements : List KeyEndorsement) (capability : String) (now : ℕ)
    (revs : RevocationSet) where
  chain_extend :
      (before : Option GrantLink) (links : List GrantLink) (b link : GrantLink)
      → ChainHolds f root_pub target endorsements capability now revs before links
      → last links ≡ some b
      → LinkHolds f root_pub target endorsements capability now revs (some b) link
      → ChainHolds f root_pub target endorsements capability now revs before (links ++ link ∷ [])
  chain_extend before [] b link h e l = absurd (ground arith)
  chain_extend before (x ∷ []) b link h e l = let p : x ≡ b = ground arith in (h.0, (rw p l, tt))
  chain_extend before (x ∷ y ∷ r) b link h e l = (h.0, chain_extend (some x) (y ∷ r) b link h.1 e l)

module _ (f : Fabric) (laws : PrimitiveLaws f.crypto) (root_pub : Bytes)
    (endorsements : List KeyEndorsement) (capability : String) (now : ℕ)
    (revs : RevocationSet) where
  signed_link :
      (g : Grant) (holder : WorkingKey) (audience : Bytes) (caveats : Caveats) (g' : Grant)
      → verify_grant f g root_pub endorsements (working_public f.kernel holder) capability now revs
        ≡ ok tt
      → (a : Attenuated f g holder audience caveats g')
      → allows_capability caveats capability ≡ true
      → now ≤ caveats.not_after
      → is_revoked revs audience ≡ false
      → LinkHolds f root_pub g.target endorsements capability now revs
          (some a.before)
          (new_link f holder audience caveats a.message)
  unfolding verify_signature working_public working_sign
  signed_link g holder audience caveats g' v a p t r = record {
    issuer_trusted = rw a.by_holder (
        (verify_grant-links f root_pub endorsements (working_public f.kernel holder) capability now
          revs g a.before v (last-Has g.links a.before a.was_last)).1);
    audience_trusted = r;
    issued = a.by_holder;
    narrows = a.narrows;
    message = a.message;
    written = a.written;
    signed = verify_raw-sign f.crypto laws holder.signing a.message;
    permits = p;
    unexpired = t;
  }

  -- Any holder of an accepted grant can hand on less: an attenuated grant is accepted for the new
  -- audience, when the new caveats permit the capability and have not ended and the new key is
  -- not revoked.
  pub attenuate_verifies :
      (g : Grant) (holder : WorkingKey) (audience : Bytes) (caveats : Caveats) (g' : Grant)
      → verify_grant f g root_pub endorsements (working_public f.kernel holder) capability now revs
        ≡ ok tt
      → attenuate f g holder audience caveats ≡ ok g'
      → allows_capability caveats capability ≡ true
      → now ≤ caveats.not_after
      → is_revoked revs audience ≡ false
      → verify_grant f g' root_pub endorsements audience capability now revs ≡ ok tt
  attenuate_verifies g holder audience caveats g' v h p t r =
      let a = attenuate_sound f g holder audience caveats g' h in
      let auth =
        (verify_grant_iff f root_pub endorsements (working_public f.kernel holder) capability now
            revs g).0
          v in
      rw a.made (
        (verify_grant_iff f root_pub endorsements audience capability now revs (record {
          target = g.target;
          links = g.links ++ new_link f holder audience caveats a.message ∷ [];
        })).1
          (record {
            target_bound = auth.target_bound;
            chain =
                chain_extend f laws root_pub g.target endorsements capability now revs none g.links
                  a.before (new_link f holder audience caveats a.message) auth.chain a.was_last
                  (signed_link g holder audience caveats g' v a p t r);
            holder = new_link f holder audience caveats a.message;
            held = last-append g.links (new_link f holder audience caveats a.message);
            for_caller = refl;
          }))

  -- A root grant issued by a key that may sign for the target is accepted for its audience, when
  -- its caveats permit the capability and have not ended and the audience is not revoked.
  pub issue_verifies :
      (target : ResourceId) (key : WorkingKey) (audience : Bytes) (caveats : Caveats) (g : Grant)
      → MaySign f.kernel root_pub target endorsements (working_public f.kernel key) now revs
      → issue f target key audience caveats ≡ ok g
      → allows_capability caveats capability ≡ true
      → now ≤ caveats.not_after
      → is_revoked revs audience ≡ false
      → verify_grant f g root_pub endorsements audience capability now revs ≡ ok tt
  unfolding issue verify_signature working_public working_sign
  issue_verifies target key audience caveats g m h p t r =
      elim (Result-cases (link_bytes f target (working_public f.kernel key) audience caveats [])) [
        | inl (e, failed) ↦ absurd (ground arith)
        | inr (msg, done) ↦
            let made : g
                ≡ (record { target = target; links = new_link f key audience caveats msg ∷ [] }) =
              ground arith in
            rw made (
              (verify_grant_iff f root_pub endorsements audience capability now revs
                  (record { target = target; links = new_link f key audience caveats msg ∷ [] })).1
                (record {
                  target_bound =
                      from_root_public-MaySign f.kernel root_pub target endorsements _ now revs m;
                  chain = (
                    record {
                      issuer_trusted = MaySign-not_revoked m;
                      audience_trusted = r;
                      issued = m;
                      narrows = tt;
                      message = msg;
                      written = done;
                      signed = verify_raw-sign f.crypto laws key.signing msg;
                      permits = p;
                      unexpired = t;
                    },
                    tt,
                  );
                  holder = new_link f key audience caveats msg;
                  held = refl;
                  for_caller = refl;
                }))
      ]
