-- ===== src/Interconnect/Grant.antt =====
-- crates/thicket-interconnect/src/grant.rs. In the loop of `verify`, `prev`, `parent` and
-- `links[i - 1]` all come from the link before, which the model passes as one argument.
pub mod Narrowing
pub mod Chain
pub mod Authority
pub mod Delegation
use thicket_ai.Base.{
  ℕ, String, Bool, not, ◌&&◌, ◌||◌, Option, none, some, List, [], ◌∷◌, ◌++◌, ⊤, Result, ok, err,
  ◌>>=◌, ◌>>◌, reject_if, map_err, ok_or, Bytes, any, all, last, is_nil, contains, ltb, ◌==◌,
  List_eq, ℕ_eq, String_eq, Option_eq,
}
use thicket_ai.Base.Dict
use thicket_ai.Base.Dict.{Dict}
use thicket_ai.Core
use thicket_ai.Core.{ResourceId, ResourceId_eq, WorkingKey, KeyEndorsement}
use thicket_ai.Core.Crypto.{signing_bytes, verify_signature}
use thicket_ai.Core.Identity.{
  RevocationSet, is_revoked, from_root_public, working_public, working_sign, verify_working_key,
}
use thicket_ai.Interconnect.Data.{
  Error, core, empty_grant, target_mismatch, broken_chain, bad_signature, bad_attenuation,
  capability_not_allowed, expired, audience_mismatch, not_holder, Caveats, GrantLink, LinkView,
  Grant,
}
use thicket_ai.Interconnect.Externals.{Fabric}

abbrev pub grant_domain : String
grant_domain = "thicket-grant-v1"

-- `Caveats::new`
unfoldable pub new_caveats : List String → ℕ → Caveats
new_caveats capabilities not_after = record {
  capabilities = capabilities;
  not_after = not_after;
  constraints = [];
}

unfoldable pub allows_capability : Caveats → String → Bool
allows_capability c cap = contains c.capabilities "*" || contains c.capabilities cap

-- a capability of the child that the parent does not have
unfoldable pub is_foreign : Caveats → String → Bool
is_foreign parent c = c == "*" || not (contains parent.capabilities c)

-- a constraint of the parent that the child does not repeat
unfoldable pub is_loosened : Caveats → String × String → Bool
is_loosened child (key, value) = not (Dict.get key child.constraints == some value)

unfoldable pub ensure_narrows : Caveats → Caveats → Result Error ⊤
ensure_narrows child parent = do
  reject_if (not (contains parent.capabilities "*") && any (is_foreign parent) child.capabilities)
      bad_attenuation
  reject_if (ltb parent.not_after child.not_after) bad_attenuation
  reject_if (any (is_loosened child) parent.constraints) bad_attenuation

-- `Grant::satisfies`
unfoldable pub satisfies : Grant → Dict String String → Bool
satisfies g attributes = elim (last g.links) [
  | none ↦ Bool.true
  | some link ↦ all (λ e. Dict.get e.0 attributes == some e.1) link.caveats.constraints
]

abbrev pub prev_sig : Option GrantLink → Bytes
prev_sig none = []
prev_sig (some link) = link.sig

module _ (f : Fabric) where
  -- the bytes that a link signs
  unfoldable pub link_bytes : ResourceId → Bytes → Bytes → Caveats → Bytes → Result Error Bytes
  link_bytes target issuer_pub audience_pub caveats prev = map_err core (
      signing_bytes f.write_link grant_domain (record {
        target = target;
        issuer_pub = issuer_pub;
        audience_pub = audience_pub;
        caveats = caveats;
        prev = prev;
      }))

  -- `Grant::issue`
  unfoldable pub issue : ResourceId → WorkingKey → Bytes → Caveats → Result Error Grant
  issue target target_key audience_pub caveats = do
    msg ← link_bytes target (working_public f.kernel target_key) audience_pub caveats []
    ok (record {
      target = target;
      links =
          record {
            issuer_pub = working_public f.kernel target_key;
            audience_pub = audience_pub;
            caveats = caveats;
            sig = working_sign f.kernel target_key msg;
          }
          ∷ [];
    })

  -- `Grant::attenuate`
  unfoldable pub attenuate : Grant → WorkingKey → Bytes → Caveats → Result Error Grant
  attenuate g holder_key new_audience_pub caveats = do
    before ← ok_or (last g.links) empty_grant
    reject_if (not (working_public f.kernel holder_key == before.audience_pub)) not_holder
    ensure_narrows caveats before.caveats
    msg ←
        link_bytes g.target (working_public f.kernel holder_key) new_audience_pub caveats before.sig
    ok (record {
      target = g.target;
      links =
          g.links
          ++ (record {
            issuer_pub = working_public f.kernel holder_key;
            audience_pub = new_audience_pub;
            caveats = caveats;
            sig = working_sign f.kernel holder_key msg;
          }
              ∷ []);
    })

  module _ (target_root_pub : Bytes) (target : ResourceId)
      (target_endorsements : List KeyEndorsement) (capability : String) (now : ℕ)
      (revocations : RevocationSet) where
    -- who may have issued the link: the head a key of the target, a later one the last audience
    unfoldable pub check_issuer : Option GrantLink → GrantLink → Result Error ⊤
    check_issuer none link = map_err core (
        verify_working_key f.kernel target_root_pub target target_endorsements link.issuer_pub now
          revocations)
    check_issuer (some before) link =
        reject_if (not (link.issuer_pub == before.audience_pub)) broken_chain

    unfoldable pub check_narrows : Option GrantLink → GrantLink → Result Error ⊤
    check_narrows none link = ok tt
    check_narrows (some before) link = ensure_narrows link.caveats before.caveats

    -- one round of the loop
    unfoldable pub check_link : Option GrantLink → GrantLink → Result Error ⊤
    check_link before link = do
      reject_if (is_revoked revocations link.issuer_pub || is_revoked revocations link.audience_pub)
          (core Core.revoked)
      check_issuer before link
      check_narrows before link
      msg ← link_bytes target link.issuer_pub link.audience_pub link.caveats (prev_sig before)
      map_err (λ _. bad_signature) (verify_signature f.crypto link.issuer_pub msg link.sig)
      reject_if (not (allows_capability link.caveats capability)) capability_not_allowed
      reject_if (ltb link.caveats.not_after now) expired

    unfoldable pub check_links : Option GrantLink → List GrantLink → Result Error ⊤
    check_links before [] = ok tt
    check_links before (link ∷ rest) = check_link before link >> check_links (some link) rest

  abbrev pub is_caller : Option GrantLink → Bytes → Bool
  is_caller none caller_pub = Bool.false
  is_caller (some link) caller_pub = link.audience_pub == caller_pub

  -- `Grant::verify`
  unfoldable pub verify_grant :
      Grant → Bytes → List KeyEndorsement → Bytes → String → ℕ → RevocationSet → Result Error ⊤
  verify_grant g target_root_pub target_endorsements caller_pub capability now revocations = do
    reject_if (is_nil g.links) empty_grant
    id ← map_err core (from_root_public f.kernel target_root_pub)
    reject_if (not (id == g.target)) target_mismatch
    check_links target_root_pub g.target target_endorsements capability now revocations none g.links
    reject_if (not (is_caller (last g.links) caller_pub)) audience_mismatch
