-- ===== src/Tests/Directories.antt =====
-- The theorems on the directory at concrete data.
use thicket_ai.Base.{
  ℕ, ◌+◌, ◌≡◌, ◌≢◌, refl, ap, String, [], ◌∷◌, none, ok, err, arith, list_eq, List,
}
use thicket_ai.Base.Dict
use thicket_ai.Core.{ResourceId, ResourceId_eq}
use thicket_ai.Core.Crypto.{signing_bytes}
use thicket_ai.Interconnect.Envelope.{request, base, sign_envelope}
use thicket_ai.Interconnect.Data.{SignedEnvelope}
use thicket_ai.Net.{VerifiedPeer, closed}
use thicket_ai.Tests.Channel.{local}
use thicket_ai.Net.Server.{Request, Reply}
use thicket_ai.Registry.{new_registry}
use thicket_ai.Directory.{
  Wire, register_cap, deregister_cap, handle_register, handle, DirectoryServer, directory_serve,
}
use thicket_ai.Directory.Gate.{Gated, handle-Gated}
use thicket_ai.Directory.Serving.{directory_serve_other}
use thicket_ai.Directory.Client.{ClientCodec, DirectoryClient}
use thicket_ai.Directory.Client.Service.{Ends, Signs}
use thicket_ai.Tests.World.{
  toy_kernel, toy_fabric, worker, delegate, fit, whole, by_length, root_key, worker_key, id,
  other_id, entry,
}
use thicket_ai.Tests.Catalog.{catalog, register_runs}

-- a codec with one message of each type
abbrev pub wire : Wire
wire = record {
  read_record = λ b. ok (entry 1);
  read_id = λ b. ok id;
  read_need = λ b. err "need";
  read_renew = λ b. ok (record { id = id; ttl = 50 });
  write_record = λ r. ok (r.payload.version ∷ []);
  write_records = λ rs. ok [];
  write_expiry = λ n. ok (n ∷ []);
  to_string = λ e. "refused";
  unknown_capability = λ c. c;
}

abbrev asking : ResourceId → String → Request
unfolding request base
asking who capability = record {
  capability = capability;
  body = [];
  auth = none;
  peer = record { id = who; working_pub = worker_key; key_not_after = 20 };
  envelope = record {
    payload = request (7 ∷ []) who other_id capability;
    signer_pub = worker_key;
    signature = [];
  };
}

handle_runs :
    handle wire toy_kernel by_length (new_registry whole) (asking id register_cap) 15
    ≡ (Reply.ok [], catalog)
unfolding handle handle_register list_eq fit asking
handle_runs = rw register_runs refl

differs : root_key ≢ other_id.as_id_bytes
unfolding fit
differs q = ground (arith, q)

abbrev directory : DirectoryServer by_length
directory = record { identity = local; registry = catalog }

abbrev stranger : VerifiedPeer
stranger = record { id = other_id; working_pub = worker_key; key_not_after = 20 }

abbrev attempts : List SignedEnvelope
unfolding asking request base
attempts = (asking other_id deregister_cap).envelope ∷ (asking other_id register_cap).envelope ∷ []

-- a clock that goes on between the requests
abbrev ticking : ℕ → ℕ
ticking n = 15 + n

handle-Gated_example :
    Gated wire toy_kernel by_length id 15
      (new_registry whole)
      (handle wire toy_kernel by_length (new_registry whole) (asking id register_cap) 15).1
unfolding asking
handle-Gated_example =
    handle-Gated wire toy_kernel by_length (new_registry whole) (asking id register_cap) 15

directory_serve_other_example :
    (Dict.get id
        (directory_serve wire toy_kernel by_length directory ticking 0
          (ok stranger)
          attempts).1.0.store
      ≡ Dict.get id catalog.store)
    × ((directory_serve wire toy_kernel by_length directory ticking 0
          (ok stranger)
          attempts).1.0.revocations
        ≡ catalog.revocations)
    × ((directory_serve wire toy_kernel by_length directory ticking 0 (err closed) attempts).1.0
        ≡ catalog)
directory_serve_other_example =
    directory_serve_other wire toy_kernel by_length ticking directory 0 stranger closed attempts id
      (λ q. differs (ap (λ (i : ResourceId). i.as_id_bytes) q))

abbrev pub client_wire : ClientCodec
client_wire = record {
  write_record = λ r. ok [];
  write_id = λ i. ok [];
  write_need = λ n. err "need";
  write_renew = λ args. ok [];
  read_record = λ b. ok (entry 1);
  read_records = λ b. ok [];
  read_expiry = λ b. ok 65;
}

abbrev pub client : DirectoryClient
client = record { local_id = id; directory_id = other_id }

abbrev ends : Ends
ends = record {
  client_key = worker;
  server_key = delegate;
  server_id = other_id;
  peer = record { id = id; working_pub = worker_key; key_not_after = 20 };
}

signs : Signs toy_fabric wire toy_kernel by_length ends 15
unfolding sign_envelope signing_bytes
signs p key = (_, refl)
