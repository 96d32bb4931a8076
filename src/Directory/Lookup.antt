-- ===== src/Directory/Lookup.antt =====
-- What is published through the directory can be looked up through it.
use thicket_ai.Base.{
  ℕ, ◌≡◌, ◌≢◌, refl, sym, ◌∙◌, false, [], ok, arith, Bool-cases, Result-cases, inl, inr, ◌==◌,
  String_eq,
}
use thicket_ai.Base.Float.{Float}
use thicket_ai.Core.{Kernel, ResourceId_eq, id_eq_iff, SignedRecord, Visibility}
use thicket_ai.Net.Server.{Request, Reply}
use thicket_ai.Registry
use thicket_ai.Registry.{Embedder, Registry, id_of, lease_expired}
use thicket_ai.Registry.Publishing.{resolve-register}
use thicket_ai.Directory.{
  Wire, register_cap, resolve_cap, encode_reply, handle_register, handle_resolve, handle,
}

module _ (w : Wire) (k : Kernel) {fl : Float} (embedder : Embedder fl) where
  handle-register :
      (reg : Registry fl) (req : Request) (now : ℕ)
      → req.capability ≡ register_cap
      → handle w k embedder reg req now ≡ handle_register w k embedder reg req now
  unfolding handle
  handle-register reg req now c = rw (c, handle) refl

  handle-resolve :
      (reg : Registry fl) (req : Request) (now : ℕ)
      → req.capability ≡ resolve_cap
      → handle w k embedder reg req now ≡ handle_resolve w k embedder reg req now
  unfolding handle
  handle-resolve reg req now c = rw (c, handle) refl

  accepted :
      (reg reg' : Registry fl) (req : Request) (now : ℕ) (r : SignedRecord)
      → w.read_record req.body ≡ ok r
      → handle_register w k embedder reg req now ≡ (Reply.ok [], reg')
      → (id_of r ≡ req.peer.id) × (Registry.register k embedder reg r now ≡ ok reg')
  unfolding handle_register
  accepted reg reg' req now r read h = elim (Bool-cases (id_of r == req.peer.id)) [
    | inr other ↦ absurd (ground arith)
    | inl own ↦ elim (Result-cases (Registry.register k embedder reg r now)) [
      | inl (e, failed) ↦ absurd (ground arith)
      | inr (x, done) ↦ ((id_eq_iff (id_of r) req.peer.id).0 own, ground arith)
    ]
  ]

  -- A record that the directory has accepted from a peer is the peer's own, and, unless it is
  -- private or its lease has passed, anyone who then asks for its id gets it.
  pub resolve_after_register :
      (reg reg' : Registry fl) (publish lookup : Request) (now : ℕ) (r : SignedRecord)
      → publish.capability ≡ register_cap
      → w.read_record publish.body ≡ ok r
      → handle w k embedder reg publish now ≡ (Reply.ok [], reg')
      → r.payload.visibility ≢ Visibility.private
      → lease_expired r now ≡ false
      → lookup.capability ≡ resolve_cap
      → w.read_id lookup.body ≡ ok (id_of r)
      → (id_of r ≡ publish.peer.id)
        × (handle w k embedder reg' lookup now ≡ (encode_reply (w.write_record r), reg'))
  unfolding handle_resolve
  resolve_after_register reg reg' publish lookup now r publishes read h shown live asks read' =
      let a =
        accepted reg reg' publish now r read
          (sym (handle-register reg publish now publishes) ∙ h) in
      (
        a.0,
        handle-resolve reg' lookup now asks
            ∙ rw (read', handle_resolve, resolve-register k embedder reg r now reg' a.1 shown live)
                refl,
      )
