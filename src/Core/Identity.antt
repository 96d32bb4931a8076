-- ===== src/Core/Identity.antt =====
-- crates/thicket-core/src/identity.rs. Its child Printing has the text forms of an id and the making of
-- keys.
pub mod Verify
pub mod Endorsing
pub mod Printing
use thicket_ai.Base.{
  ℕ, String, Bool, not, ◌||◌, Option, List, ⊤, Result, ok, err, ◌>>=◌, ◌>>◌, reject_if, map_err,
  ok_or, Bytes, length, find, contains, ltb, ◌==◌, ℕ_eq, List_eq, if◌then◌else◌, ◌∷◌, [],
}
use thicket_ai.Core.Data.{
  Error, bad_key, id_mismatch, no_valid_endorsement, endorsement_expired, revoked, bad_endorsement,
  ResourceId, ResourceId_eq, RootKey, WorkingKey, EndorsementView, RevocationView, KeyEndorsement,
  Revocation,
}
use thicket_ai.Core.Externals.{Kernel}
use thicket_ai.Core.Crypto.{signing_bytes, sha256, verify_raw}

abbrev pub endorse_domain : String
endorse_domain = "thicket-endorsement-v1"

abbrev pub revoke_domain : String
revoke_domain = "thicket-revocation-v1"

-- `RevocationSet`: the keys in it, newest first.
pub record RevocationSet : Type 0 where
  pub keys : List Bytes

-- `RevocationSet::new`
abbrev pub no_revocations : RevocationSet
no_revocations = record { keys = [] }

unfoldable pub is_revoked : RevocationSet → Bytes → Bool
is_revoked r working_pub = contains r.keys working_pub

unfoldable pub revoke_key : RevocationSet → Bytes → RevocationSet
revoke_key r working_pub =
    if contains r.keys working_pub then r else record { keys = working_pub ∷ r.keys }

module _ (k : Kernel) where
  -- `Id::from_root_public`
  unfoldable pub from_root_public : Bytes → Result Error ResourceId
  unfolding sha256
  from_root_public root_pub = do
    reject_if (not (length root_pub == 32)) bad_key
    ok (record { as_id_bytes = sha256 k.crypto root_pub })

  -- `RootKey::public` and `WorkingKey::public`
  unfoldable pub root_public : RootKey → Bytes
  root_public root = k.verifying_key root.signing

  unfoldable pub working_public : WorkingKey → Bytes
  working_public working = k.verifying_key working.signing

  -- `RootKey::id`, where an error is the panic of `expect`.
  unfoldable pub root_id : RootKey → Result Error ResourceId
  unfolding from_root_public root_public
  root_id root = from_root_public (root_public root)

  -- `WorkingKey::sign`
  unfoldable pub working_sign : WorkingKey → Bytes → Bytes
  working_sign working msg = k.signing_key_sign working.signing msg

  -- `RootKey::endorse`
  unfoldable pub endorse : RootKey → Bytes → ℕ → ℕ → Result Error KeyEndorsement
  endorse root working_pub not_before not_after = do
    msg ←
        signing_bytes k.write_endorsement endorse_domain
          (record { working_pub = working_pub; not_before = not_before; not_after = not_after })
    ok (record {
      working_pub = working_pub;
      not_before = not_before;
      not_after = not_after;
      root_sig = k.signing_key_sign root.signing msg;
    })

  -- `RootKey::revoke`
  unfoldable pub revoke : RootKey → Bytes → ℕ → Result Error Revocation
  revoke root working_pub issued_at = do
    msg ←
        signing_bytes k.write_revocation revoke_domain
          (record { working_pub = working_pub; issued_at = issued_at })
    ok (record {
      working_pub = working_pub;
      issued_at = issued_at;
      root_sig = k.signing_key_sign root.signing msg;
    })

  unfoldable pub verify_endorsement : Bytes → KeyEndorsement → Result Error ⊤
  verify_endorsement root_pub e = do
    msg ←
        signing_bytes k.write_endorsement endorse_domain (record {
          working_pub = e.working_pub;
          not_before = e.not_before;
          not_after = e.not_after;
        })
    map_err (λ _. bad_endorsement) (verify_raw k.crypto root_pub msg e.root_sig)

  unfoldable pub verify_revocation : Bytes → Revocation → Result Error ⊤
  verify_revocation root_pub r = do
    msg ←
        signing_bytes k.write_revocation revoke_domain
          (record { working_pub = r.working_pub; issued_at = r.issued_at })
    map_err (λ _. bad_endorsement) (verify_raw k.crypto root_pub msg r.root_sig)

  unfoldable pub verify_working_key :
      Bytes → ResourceId → List KeyEndorsement → Bytes → ℕ → RevocationSet → Result Error ⊤
  verify_working_key root_pub id endorsements signer_pub now revocations = do
    expected ← from_root_public root_pub
    reject_if (not (expected == id)) id_mismatch
    e ← ok_or (find (λ x. x.working_pub == signer_pub) endorsements) no_valid_endorsement
    verify_endorsement root_pub e
    reject_if (ltb now e.not_before || ltb e.not_after now) endorsement_expired
    reject_if (is_revoked revocations signer_pub) revoked
