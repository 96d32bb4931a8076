-- ===== src/Directory.antt =====
-- crates/thicket-directory/src: server.rs, wire.rs and the names of lib.rs. The lock around the
-- registry is held for one operation at a time: a request is one step on the registry.
pub mod Gate
pub mod Serving
pub mod Lookup
pub mod Client
use thicket_ai.Base.{
  ℕ, suc, String, Bool, not, Option, List, [], ◌∷◌, Result, ok, err, Bytes, ◌==◌, String_eq,
  if◌then◌else◌,
}
use thicket_ai.Base.Float.{Float}
use thicket_ai.Core.{Kernel, ResourceId, ResourceId_eq, SignedRecord}
use thicket_ai.Interconnect.Data.{ErrorCode, EnvelopePayload, SignedEnvelope}
use thicket_ai.Net
use thicket_ai.Net.{LocalIdentity, VerifiedPeer}
use thicket_ai.Net.Server.{Request, Reply, Server, new_server, serve_accepted}
use thicket_ai.Registry
use thicket_ai.Registry.{Need, Embedder, Registry, RegistryError, id_of}

pub record RenewArgs : Type 0 where
  pub id : ResourceId
  pub ttl : ℕ

abbrev pub register_cap : String
register_cap = "directory.register"

abbrev pub resolve_cap : String
resolve_cap = "directory.resolve"

abbrev pub search_cap : String
search_cap = "directory.search"

abbrev pub renew_cap : String
renew_cap = "directory.renew"

abbrev pub deregister_cap : String
deregister_cap = "directory.deregister"

-- `from_cbor` and `to_cbor` at the types that the server reads and writes, and the texts of errors
-- and of the reply to an unknown capability.
pub record Wire : Type 0 where
  pub read_record : Bytes → Result String SignedRecord
  pub read_id : Bytes → Result String ResourceId
  pub read_need : Bytes → Result String Need
  pub read_renew : Bytes → Result String RenewArgs
  pub write_record : SignedRecord → Result String Bytes
  pub write_records : List SignedRecord → Result String Bytes
  pub write_expiry : ℕ → Result String Bytes
  pub to_string : RegistryError → String
  pub unknown_capability : String → String

-- `encode_reply`, of the encoder's answer
unfoldable pub encode_reply : Result String Bytes → Reply
encode_reply (ok bytes) = Reply.ok bytes
encode_reply (err e) = Reply.error ErrorCode.internal "encode failed"

module _ (w : Wire) (k : Kernel) {fl : Float} (embedder : Embedder fl) where
  abbrev pub Answer : Type 0
  Answer = Reply × Registry fl

  -- the arm of each capability
  unfoldable pub handle_register : Registry fl → Request → ℕ → Answer
  handle_register reg req now = elim (w.read_record req.body) [
    | err _ ↦ (Reply.error ErrorCode.bad_request "malformed record", reg)
    | ok r ↦
        if not (id_of r == req.peer.id)
        then (Reply.error ErrorCode.unauthorized "may only register your own identity", reg)
        else elim (Registry.register k embedder reg r now) [
          | ok reg' ↦ (Reply.ok [], reg')
          | err e ↦ (Reply.error ErrorCode.conflict (w.to_string e), reg)
        ]
  ]

  unfoldable pub handle_resolve : Registry fl → Request → ℕ → Answer
  unfolding encode_reply
  handle_resolve reg req now = elim (w.read_id req.body) [
    | err _ ↦ (Reply.error ErrorCode.bad_request "malformed id", reg)
    | ok id ↦ elim (Registry.resolve k embedder reg id now) [
      | ok r ↦ (encode_reply (w.write_record r), reg)
      | err _ ↦ (Reply.error ErrorCode.not_found "no such record", reg)
    ]
  ]

  unfoldable pub handle_search : Registry fl → Request → ℕ → Answer
  unfolding encode_reply
  handle_search reg req now = elim (w.read_need req.body) [
    | err _ ↦ (Reply.error ErrorCode.bad_request "malformed query", reg)
    | ok need ↦ (encode_reply (w.write_records (Registry.search k embedder reg need now)), reg)
  ]

  unfoldable pub handle_renew : Registry fl → Request → ℕ → Answer
  unfolding encode_reply
  handle_renew reg req now = elim (w.read_renew req.body) [
    | err _ ↦ (Reply.error ErrorCode.bad_request "malformed renew", reg)
    | ok args ↦
        if not (args.id == req.peer.id)
        then (Reply.error ErrorCode.unauthorized "not your record", reg)
        else elim (Registry.renew k embedder reg args.id now args.ttl) [
          | ok (expiry, reg') ↦ (encode_reply (w.write_expiry expiry), reg')
          | err _ ↦ (Reply.error ErrorCode.not_found "no such record", reg)
        ]
  ]

  unfoldable pub handle_deregister : Registry fl → Request → ℕ → Answer
  handle_deregister reg req now = elim (w.read_id req.body) [
    | err _ ↦ (Reply.error ErrorCode.bad_request "malformed id", reg)
    | ok id ↦
        if not (id == req.peer.id)
        then (Reply.error ErrorCode.unauthorized "not your record", reg)
        else (Reply.ok [], (Registry.deregister k embedder reg id).1)
  ]

  -- `handle`
  unfoldable pub handle : Registry fl → Request → ℕ → Answer
  unfolding handle_register handle_resolve handle_search handle_renew handle_deregister
  handle reg req now =
      if req.capability == register_cap
      then handle_register reg req now
      else if req.capability == resolve_cap
      then handle_resolve reg req now
      else if req.capability == search_cap
      then handle_search reg req now
      else if req.capability == renew_cap
      then handle_renew reg req now
      else if req.capability == deregister_cap
      then handle_deregister reg req now
      else (Reply.error ErrorCode.not_found (w.unknown_capability req.capability), reg)

-- `DirectoryServer`, whose registry stands in the state of its handler
pub record DirectoryServer {fl : Float} (embedder : Embedder fl) : Type 0 where
  pub identity : LocalIdentity
  pub registry : Registry fl

-- `DirectoryServer::new`
unfoldable pub new_directory_server :
    {fl : Float} (embedder : Embedder fl) → LocalIdentity → Registry fl → DirectoryServer embedder
new_directory_server embedder identity registry = record {
  identity = identity;
  registry = registry;
}

module _ (w : Wire) (k : Kernel) {fl : Float} (embedder : Embedder fl) where
  -- the server that `DirectoryServer::serve` makes: its handler reads the clock for each request,
  -- `clock n` being the time at request number n, and its state is the registry and the number of
  -- the next request
  unfoldable pub directory_service : DirectoryServer embedder → (ℕ → ℕ) → Server (Registry fl × ℕ)
  unfolding handle new_server
  directory_service d clock = new_server d.identity (λ (reg, n) req.
      let handled = handle w k embedder reg req (clock n) in (handled.0, (handled.1, suc n)))

  -- one connection of a client to it, from request number `n` on
  unfoldable pub directory_serve :
      DirectoryServer embedder
      → (ℕ → ℕ)
      → ℕ
      → Result Net.Error VerifiedPeer
      → List SignedEnvelope
      → List EnvelopePayload × (Registry fl × ℕ)
  unfolding directory_service serve_accepted
  directory_serve d clock n accepted inbound =
      serve_accepted (directory_service d clock) accepted (d.registry, n) inbound
