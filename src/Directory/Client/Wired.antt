-- ===== src/Directory/Client/Wired.antt =====
-- The client of a directory over a connection: the typed calls, the channels and the tasks of both
-- ends, the cipher between them, the directory's handler and its registry, together.
use thicket_ai.Base.{ℕ, ◌≡◌, ◌≤◌, refl, ap, sym, ◌∙◌, String, ok, Bytes}
use thicket_ai.Base.Float.{Float}
use thicket_ai.Core.{Kernel, PrimitiveLaws}
use thicket_ai.Interconnect.{Fabric}
use thicket_ai.Interconnect.Data.{EnvelopePayload, SignedEnvelope}
use thicket_ai.Interconnect.Envelope.{sign_envelope, request, with_body, base}
use thicket_ai.Net.Sealing.{Transport}
use thicket_ai.Net.Sealing.Opening.{TransportLaws}
use thicket_ai.Net.Server.{Request, Reply, to_request, to_response}
use thicket_ai.Net.Routing.{Channels}
use thicket_ai.Net.Conn.{Codec, Conn}
use thicket_ai.Net.Wired.{End, Pair, wired_call}
use thicket_ai.Net.Wired.Laws.{ChannelLaws, Linked}
use thicket_ai.Net.Wired.Round.{Portable}
use thicket_ai.Net.Wired.Exchange.{wired_call_answers}
use thicket_ai.Registry.{Embedder, Registry}
use thicket_ai.Directory.{Wire, handle}
use thicket_ai.Directory.Client.{Caller, ClientCodec, DirectoryClient}
use thicket_ai.Directory.Client.Promise.{Operation, promised, Carried, performed}
use thicket_ai.Directory.Client.Refinement.{performed-promised}
use thicket_ai.Directory.Client.Service.{
  Ends, Signs, answer_signed, served, exchange_answers, sign_envelope_payload,
}
use thicket_ai.Directory.Client.Simulation.{asking, Asks, Same, performed_agrees}

module _ (f : Fabric) (t : Transport) (ch : Channels) (codec : Codec) (w : Wire) (k : Kernel)
    {fl : Float} (embedder : Embedder fl) (asked answered : ℕ) where
  abbrev pub serving : Registry fl → Request → Reply × Registry fl
  serving reg req = handle w k embedder reg req asked

  -- a connection to a directory, as its client sees it
  abbrev pub wired : Caller
  wired = record {
    State = Pair f t ch codec (Registry fl);
    call = wired_call f t ch codec serving asked answered;
  }

  abbrev pub ends_of : End f t ch codec → End f t ch codec → Ends
  ends_of client server = record {
    client_key = client.conn.working;
    server_key = server.conn.working;
    server_id = server.conn.local_id;
    peer = server.conn.peer;
  }

  -- The request that a payload becomes, and the response to it, can be carried.
  abbrev pub Travels :
      Conn f t ch codec → Conn f t ch codec → Registry fl → EnvelopePayload → Type 0
  Travels a b reg p =
      (env : SignedEnvelope)
      → sign_envelope f p a.working ≡ ok env
      → Portable f t ch codec env
        × ((resp : SignedEnvelope)
            → sign_envelope f
                (to_response b.local_id b.peer env
                  (serving reg (to_request b.local_id b.peer env)).0)
                b.working
              ≡ ok resp
            → Portable f t ch codec resp)

  module _ (client server : End f t ch codec) (c : ClientCodec) (d : DirectoryClient)
      (fresh : Bytes) where
    module _ (tl : TransportLaws t) (cl : ChannelLaws ch) (pl : PrimitiveLaws f.crypto)
        (mirrored : (a b : t.State) → tl.Synced a b → tl.Synced b a)
        (signs : Signs f w k embedder (ends_of client server) asked)
        (own : d.local_id ≡ client.conn.local_id) (fits : asked ≤ server.conn.peer.key_not_after)
        (fits' : answered ≤ client.conn.peer.key_not_after) where
      -- the two ends are linked, and the directory's registry is the one given
      abbrev Stands : wired.State → Registry fl → Type 0
      Stands s reg =
          Linked f t ch codec tl cl s.0 s.1
          × (s.2 ≡ reg)
          × (s.0.conn ≡ client.conn)
          × (s.1.conn ≡ server.conn)

      call_agrees :
          (reg : Registry fl) (capability : String) (body : Bytes)
          → Linked f t ch codec tl cl client server
          → Travels client.conn server.conn reg (asking c d fresh capability body)
          → Same c d fresh wired
              (served f w k embedder (ends_of client server) asked)
              Stands
              (client, server, reg)
              reg
              (asking c d fresh capability body)
      unfolding request with_body base
      call_agrees reg capability body link travels =
          let p = asking c d fresh capability body in
          let ends = ends_of client server in
          let made = signs p client.conn.working in
          let env = made.0 in
          let carried = travels env made.1 in
          let req = to_request server.conn.local_id server.conn.peer env in
          let q = to_response server.conn.local_id server.conn.peer env (serving reg req).0 in
          let made' = signs q server.conn.working in
          let resp = made'.0 in
          let got =
            wired_call_answers f t ch codec serving tl cl pl mirrored asked answered client server
              reg p env resp link made.1 own refl carried.0 made'.1 (carried.1 resp made'.1) fits
              fits' in
          let same = sign_envelope_payload f p client.conn.working env made.1 in
          let ideal =
            exchange_answers f w k embedder ends asked c d fresh signs p env resp reg made.1
              (rw same refl) (answer_signed f w k embedder ends asked q resp made'.1) in
          rw (got.2, ideal) (refl, (got.3, refl, got.4, got.5))

      -- Everything together: a client's operation at a directory, over an idle connection between the
      -- two, gives the result that the directory promises for it and leaves the directory's registry
      -- in the promised state, and the connection idle again, with the ends that it had. The client's id is that of its end of the
      -- connection, both keys are still trusted, signing does not fail, the codecs write and read back
      -- what the operation sends and receives, and the frames can be sealed.
      pub wired-promised :
          (op : Operation) (reg : Registry fl)
          → Linked f t ch codec tl cl client server
          → Carried w c k embedder asked server.conn.peer.id op reg
          → ((capability : String) (body : Bytes)
              → Asks c d fresh op capability body
              → Travels client.conn server.conn reg (asking c d fresh capability body))
          → ((performed wired c d fresh op (client, server, reg)).0
              ≡ (promised w k embedder asked server.conn.peer.id op reg).0)
            × ((performed wired c d fresh op (client, server, reg)).1.2
                ≡ (promised w k embedder asked server.conn.peer.id op reg).1)
            × Linked f t ch codec tl cl
                (performed wired c d fresh op (client, server, reg)).1.0
                (performed wired c d fresh op (client, server, reg)).1.1
            × ((performed wired c d fresh op (client, server, reg)).1.0.conn ≡ client.conn)
            × ((performed wired c d fresh op (client, server, reg)).1.1.conn ≡ server.conn)
      wired-promised op reg link carried travels =
          let ends = ends_of client server in
          let ideal =
            performed-promised f w k embedder ends asked c d fresh signs (own ∙ sym link.knows) op
              reg carried in
          let x =
            performed_agrees c d fresh wired (served f w k embedder ends asked) Stands
              (client, server, reg) reg op (link, refl, refl, refl)
              (λ capability body a.
                call_agrees reg capability body link (travels capability body a)) in
          (x.0 ∙ ap (λ y. y.0) ideal, x.1.1 ∙ ap (λ y. y.1) ideal, x.1.0, x.1.2, x.1.3)
