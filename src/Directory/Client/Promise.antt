-- ===== src/Directory/Client/Promise.antt =====
-- The operations of a client: what it does for each, and what the directory promises for it.
use thicket_ai.Base.{
  ℕ, ◌≡◌, String, Option, none, some, List, ⊤, Result, ok, err, Bytes, ◌==◌, String_eq,
  if◌then◌else◌, map_ok,
}
use thicket_ai.Base.Float.{Float}
use thicket_ai.Core.{Kernel, ResourceId, ResourceId_eq, SignedRecord}
use thicket_ai.Registry
use thicket_ai.Registry.{Need, Embedder, Registry, id_of}
use thicket_ai.Directory.{Wire}
use thicket_ai.Directory.Client
use thicket_ai.Directory.Client.{
  Caller, ClientCodec, DirectoryClient, remote, found_or_none, decoded,
}

-- What an end relies on of the codec at one value: it is written, and read back as it was.
abbrev pub RoundTrips :
    {A : Type 0} → (A → Result String Bytes) → (Bytes → Result String A) → A → Type 0
RoundTrips write read x = (b : Bytes) × (write x ≡ ok b) × (read b ≡ ok x)

-- the same of a result, where there is one
abbrev pub Returned :
    {E A B : Type 0}
    → (A → B)
    → (B → Result String Bytes)
    → (Bytes → Result String B)
    → Result E A
    → Type 0
Returned f write read (ok x) = RoundTrips write read (f x)
Returned f write read (err e) = ⊤

-- The operations of a client, and their results.
pub data Operation : Type 0 where
  registers : SignedRecord → Operation
  resolves : ResourceId → Operation
  searches : Need → Operation
  renews : ℕ → Operation
  deregisters : Operation

pub data Outcome : Type 0 where
  done : Outcome
  found : Option SignedRecord → Outcome
  ranked : List SignedRecord → Outcome
  expires : ℕ → Outcome

module _ (w : Wire) (k : Kernel) {fl : Float} (embedder : Embedder fl) (now : ℕ)
    (me : ResourceId) where
  abbrev pub Performed : Type 0
  Performed = Result Client.Error Outcome × Registry fl

  -- What the directory promises to a client with the id `me`: the operation of the registry at `now`.
  unfoldable pub promised : Operation → Registry fl → Performed
  promised (registers r) reg =
      if id_of r == me
      then elim (Registry.register k embedder reg r now) [
        | ok reg' ↦ (ok done, reg')
        | err e ↦ (err (remote (w.to_string e)), reg)
      ]
      else (err (remote "may only register your own identity"), reg)
  promised (resolves id) reg = elim (Registry.resolve k embedder reg id now) [
    | ok r ↦ (ok (found (some r)), reg)
    | err _ ↦ (ok (found none), reg)
  ]
  promised (searches need) reg = (ok (ranked (Registry.search k embedder reg need now)), reg)
  promised (renews ttl) reg = elim (Registry.renew k embedder reg me now ttl) [
    | ok (expiry, reg') ↦ (ok (expires expiry), reg')
    | err _ ↦ (err (remote "no such record"), reg)
  ]
  promised deregisters reg = (ok done, (Registry.deregister k embedder reg me).1)

-- The values that an operation sends and receives round-trip.
abbrev pub Carried :
    (w : Wire) (c : ClientCodec) (k : Kernel) {fl : Float} (embedder : Embedder fl) (now : ℕ)
    → ResourceId
    → Operation
    → Registry fl
    → Type 0
Carried w c k embedder now me (registers r) reg = RoundTrips c.write_record w.read_record r
Carried w c k embedder now me (resolves id) reg =
    RoundTrips c.write_id w.read_id id
    × Returned (λ r. r) w.write_record c.read_record (Registry.resolve k embedder reg id now)
Carried w c k embedder now me (searches need) reg =
    RoundTrips c.write_need w.read_need need
    × RoundTrips w.write_records c.read_records (Registry.search k embedder reg need now)
Carried w c k embedder now me (renews ttl) reg =
    RoundTrips c.write_renew w.read_renew (record { id = me; ttl = ttl })
    × Returned (λ x. x.0) w.write_expiry c.read_expiry (Registry.renew k embedder reg me now ttl)
Carried w c k embedder now me deregisters reg = RoundTrips c.write_id w.read_id me

-- What the client does for an operation.
unfoldable pub performed :
    (conn : Caller) (c : ClientCodec) (d : DirectoryClient) (fresh : Bytes)
    → Operation
    → conn.State
    → Result Client.Error Outcome × conn.State
performed conn c d fresh (registers r) s =
    let x = Client.register conn c d fresh r s in (map_ok (λ _. done) x.0, x.1)
performed conn c d fresh (resolves id) s =
    let x = Client.resolve conn c d fresh id s in (map_ok found x.0, x.1)
performed conn c d fresh (searches need) s =
    let x = Client.search conn c d fresh need s in (map_ok ranked x.0, x.1)
performed conn c d fresh (renews ttl) s =
    let x = Client.renew conn c d fresh ttl s in (map_ok expires x.0, x.1)
performed conn c d fresh deregisters s =
    let x = Client.deregister conn c d fresh s in (map_ok (λ _. done) x.0, x.1)
