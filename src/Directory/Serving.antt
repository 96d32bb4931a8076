-- ===== src/Directory/Serving.antt =====
-- One connection to a directory, with all the requests that come over it.
use thicket_ai.Base.{ℕ, suc, ◌≡◌, ◌≢◌, refl, ◌∙◌, inl, inr, List, [], ◌∷◌, ok, err, Bool-cases}
use thicket_ai.Base.Float.{Float}
use thicket_ai.Base.Dict
use thicket_ai.Core.{Kernel, ResourceId, ResourceId_eq}
use thicket_ai.Interconnect.Data.{SignedEnvelope}
use thicket_ai.Net
use thicket_ai.Net.{VerifiedPeer}
use thicket_ai.Net.Server.{
  Request, Reply, is_request, to_request, serve_conn, new_server, serve_accepted,
}
use thicket_ai.Registry.{Embedder, Registry}
use thicket_ai.Directory.{Wire, handle, DirectoryServer, directory_service, directory_serve}
use thicket_ai.Directory.Gate.{handle_other}

module _ (w : Wire) (k : Kernel) {fl : Float} (embedder : Embedder fl) (clock : ℕ → ℕ) where
  -- what a connection of a peer may do to a registry
  abbrev Spares : VerifiedPeer → ResourceId → Registry fl → Registry fl → Type 0
  Spares peer id reg reg' =
      id ≢ peer.id
      → (Dict.get id reg'.store ≡ Dict.get id reg.store) × (reg'.revocations ≡ reg.revocations)

  -- the handler of the directory, as `directory_service` gives it to its server
  abbrev serve_one : Registry fl × ℕ → Request → Reply × (Registry fl × ℕ)
  serve_one (reg, n) req =
      let handled = handle w k embedder reg req (clock n) in (handled.0, (handled.1, suc n))

  serve_conn-Spares :
      (local_id : ResourceId) (peer : VerifiedPeer) (inbound : List SignedEnvelope)
      (reg : Registry fl) (n : ℕ) (id : ResourceId)
      → Spares peer id reg (serve_conn local_id peer serve_one (reg, n) inbound).1.0
  unfolding serve_conn to_request
  serve_conn-Spares local_id peer [] reg n id ne = (refl, refl)
  serve_conn-Spares local_id peer (env ∷ inbound) reg n id ne =
      let req = to_request local_id peer env in
      let reg' = (handle w k embedder reg req (clock n)).1 in
      let later = serve_conn-Spares local_id peer inbound reg' (suc n) id ne in
      let one = handle_other w k embedder reg req (clock n) id ne in
      elim (Bool-cases (is_request env.payload.typ)) [
        | inl asks ↦ rw (serve_conn, asks) (later.0 ∙ one.0, later.1 ∙ one.1)
        | inr other ↦ rw (serve_conn, other) (serve_conn-Spares local_id peer inbound reg n id ne)
      ]

  -- Whatever a client sends over its connection, in any number of envelopes and whatever the clock
  -- shows at each request, the directory changes no entry but that of the identity that the
  -- connection authenticated, and no revocation; a socket whose handshake fails changes nothing.
  pub directory_serve_other :
      (d : DirectoryServer embedder) (n : ℕ) (peer : VerifiedPeer) (e : Net.Error)
      (inbound : List SignedEnvelope) (id : ResourceId)
      → id ≢ peer.id
      → (Dict.get id (directory_serve w k embedder d clock n (ok peer) inbound).1.0.store
          ≡ Dict.get id d.registry.store)
        × ((directory_serve w k embedder d clock n (ok peer) inbound).1.0.revocations
            ≡ d.registry.revocations)
        × ((directory_serve w k embedder d clock n (err e) inbound).1.0 ≡ d.registry)
  unfolding directory_serve directory_service new_server serve_accepted
  directory_serve_other d n peer e inbound id ne =
      let x = serve_conn-Spares d.identity.id peer inbound d.registry n id ne in (x.0, x.1, refl)
