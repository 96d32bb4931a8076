-- ===== src/Registry/Renewal.antt =====
-- The lease is a part of the payload that the resource signed, and a renewal rewrites it.
use thicket_ai.Base.{
  ℕ, ◌≡◌, ◌≢◌, ap, sym, ◌∙◌, true, some, ok, Bytes, arith, Result-cases, inl, inr, as_bytes,
}
use thicket_ai.Base.Float.{Float}
use thicket_ai.Base.Dict
use thicket_ai.Core.{Kernel, ResourceId, ResourceId_eq, SignedRecord, RecordPayload, Lease}
use thicket_ai.Core.Crypto.{signing_bytes}
use thicket_ai.Core.Crypto.Laws.{NulFree, signing_bytes-separates, verify_raw_iff}
use thicket_ai.Core.Identity.{RevocationSet}
use thicket_ai.Core.Record.{record_domain, record_signing_input, verify_record}
use thicket_ai.Registry.{Embedder, Stored, Registry, renewed_lease, with_lease, renew}
use thicket_ai.Registry.Leases.{renew_sound}

record_domain-NulFree : NulFree record_domain
unfolding as_bytes
record_domain-NulFree = omega arith

module _ (k : Kernel) where
  -- A verified record has a signature that Ed25519 accepts for the record's signing input.
  verify_record-signed :
      (r : SignedRecord) (now : ℕ) (revs : RevocationSet)
      → verify_record k r now revs ≡ ok tt
      → (m : Bytes) × (record_signing_input k r.payload ≡ ok m)
        × (k.vk_verify r.signer_pub m r.signature ≡ true)
  unfolding verify_record record_signing_input
  verify_record-signed r now revs h =
      elim (Result-cases (signing_bytes k.write_record record_domain r.payload)) [
        | inl (e, failed) ↦ absurd (ground arith)
        | inr (m, written) ↦
            (m, written, ((verify_raw_iff k.crypto r.signer_pub m r.signature).0 (ground arith)).3)
      ]

  -- If the encoding shows the lease, a record whose signature fits only its own signing input is
  -- not verified with another lease.
  other_lease_unverified :
      (r : SignedRecord) (lease : Lease) (m : Bytes) (now : ℕ) (revs : RevocationSet)
      → record_signing_input k r.payload ≡ ok m
      → ((p q : RecordPayload) → k.write_record p ≡ k.write_record q → p.lease ≡ q.lease)
      → ((m' : Bytes) → k.vk_verify r.signer_pub m' r.signature ≡ true → m' ≡ m)
      → r.payload.lease ≢ some lease
      → verify_record k (record r { payload = record r.payload { lease = some lease } }) now revs
        ≢ ok tt
  unfolding record_signing_input
  other_lease_unverified r lease m now revs signed shows only differs h =
      let v =
        verify_record-signed (record r { payload = record r.payload { lease = some lease } }) now
          revs h in
      let same : v.0 ≡ m = only v.0 v.2 in
      let enc =
        signing_bytes-separates k.write_record k.write_record record_domain record_domain r.payload
          (record r.payload { lease = some lease }) m record_domain-NulFree record_domain-NulFree
          signed (v.1 ∙ ap ok same) in
      differs (shows r.payload (record r.payload { lease = some lease }) enc.1)

module _ (k : Kernel) {fl : Float} (embedder : Embedder fl) where
  -- A renewal that changes the lease leaves a record that never verifies again, for any time and
  -- any revocations, where the encoding shows the lease and the record's signature fits no bytes
  -- but those that were signed.
  pub renew_unverifiable :
      (reg : Registry fl) (id : ResourceId) (now ttl : ℕ) (s : Stored fl) (old : Lease) (m : Bytes)
      → Dict.get id reg.store ≡ some s
      → s.entry.payload.lease ≡ some old
      → record_signing_input k s.entry.payload ≡ ok m
      → ((p q : RecordPayload) → k.write_record p ≡ k.write_record q → p.lease ≡ q.lease)
      → ((m' : Bytes) → k.vk_verify s.entry.signer_pub m' s.entry.signature ≡ true → m' ≡ m)
      → old ≢ renewed_lease k embedder now ttl
      → (expiry : ℕ) × (reg' : Registry fl) × (s' : Stored fl) × (renew k embedder reg id now ttl
          ≡ ok (expiry, reg'))
        × (Dict.get id reg'.store ≡ some s')
        × ((t : ℕ) (revs : RevocationSet) → verify_record k s'.entry t revs ≢ ok tt)
  unfolding with_lease
  renew_unverifiable reg id now ttl s old m found leased signed shows only changes =
      let r = renew_sound k embedder reg id now ttl s old found leased in
      (
        _,
        r.0,
        with_lease k embedder s (renewed_lease k embedder now ttl),
        r.1,
        r.2,
        (λ t revs.
            other_lease_unverified k s.entry (renewed_lease k embedder now ttl) m t revs signed
              shows only
              (λ q. changes (
                let both : some old ≡ some (renewed_lease k embedder now ttl) = sym leased ∙ q in
                ground arith))),
      )
