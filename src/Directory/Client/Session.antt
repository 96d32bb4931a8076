-- ===== src/Directory/Client/Session.antt =====
-- The operations of a client, one after the other over one connection.
use thicket_ai.Base.{ℕ, ◌≡◌, ◌≤◌, refl, ap, sym, ◌∙◌, String, List, [], ◌∷◌, Result, Bytes, ⊤}
use thicket_ai.Base.Float.{Float}
use thicket_ai.Core.{Kernel, ResourceId, PrimitiveLaws}
use thicket_ai.Interconnect.{Fabric}
use thicket_ai.Net.Sealing.{Transport}
use thicket_ai.Net.Sealing.Opening.{TransportLaws}
use thicket_ai.Net.Routing.{Channels}
use thicket_ai.Net.Conn.{Codec, Conn}
use thicket_ai.Net.Wired.{End, Pair}
use thicket_ai.Net.Wired.Laws.{ChannelLaws, Linked}
use thicket_ai.Registry.{Embedder, Registry}
use thicket_ai.Directory.{Wire}
use thicket_ai.Directory.Client
use thicket_ai.Directory.Client.{ClientCodec, DirectoryClient}
use thicket_ai.Directory.Client.Promise.{Operation, Outcome, promised, Carried, performed}
use thicket_ai.Directory.Client.Service.{Signs}
use thicket_ai.Directory.Client.Simulation.{asking, Asks}
use thicket_ai.Directory.Client.Wired.{wired, ends_of, Travels, wired-promised}

-- An operation, the fresh correlation of its request, and the times at which the server reads the
-- request and the client the response.
pub record Turn : Type 0 where
  pub op : Operation
  pub fresh : Bytes
  pub asked : ℕ
  pub answered : ℕ

module _ (w : Wire) (k : Kernel) {fl : Float} (embedder : Embedder fl) where
  -- what the directory promises to the client with an id, turn by turn
  unfoldable pub promised_session :
      ResourceId → List Turn → Registry fl → List (Result Client.Error Outcome) × Registry fl
  promised_session me [] reg = ([], reg)
  promised_session me (x ∷ xs) reg =
      let one = promised w k embedder x.asked me x.op reg in
      let rest = promised_session me xs one.1 in (one.0 ∷ rest.0, rest.1)

  module _ (f : Fabric) (t : Transport) (ch : Channels) (codec : Codec) (c : ClientCodec)
      (d : DirectoryClient) where
    -- what the client does
    unfoldable pub run_session :
        List Turn
        → Pair f t ch codec (Registry fl)
        → List (Result Client.Error Outcome) × Pair f t ch codec (Registry fl)
    run_session [] s = ([], s)
    run_session (x ∷ xs) s =
        let one =
          performed (wired f t ch codec w k embedder x.asked x.answered) c d x.fresh x.op s in
        let rest = run_session xs one.1 in (one.0 ∷ rest.0, rest.1)

    -- Each turn can be carried: the keys of both ends are still trusted when it is read, the codecs
    -- round-trip what it sends and receives, and its frames can be sealed, in the registry that the
    -- turns before it leave.
    abbrev pub Possible : Conn f t ch codec → Conn f t ch codec → List Turn → Registry fl → Type 0
    Possible a b [] reg = ⊤
    Possible a b (x ∷ xs) reg =
        (x.asked ≤ b.peer.key_not_after)
        × (x.answered ≤ a.peer.key_not_after)
        × Carried w c k embedder x.asked b.peer.id x.op reg
        × ((capability : String) (body : Bytes)
            → Asks c d x.fresh x.op capability body
            → Travels f t ch codec w k embedder x.asked x.answered a b reg
                (asking c d x.fresh capability body))
        × Possible a b xs (promised w k embedder x.asked b.peer.id x.op reg).1

    -- The whole program, from a client to a directory: a session of any operations, one after the
    -- other over one idle connection, gives the results that the directory promises for them in this
    -- order and leaves its registry in the promised state, and the connection idle again. The client's
    -- id is that of its end of the connection, signing does not fail, and each turn can be carried.
    pub run_session-promised_session :
        (tl : TransportLaws t) (cl : ChannelLaws ch) (pl : PrimitiveLaws f.crypto)
        (mirrored : (a b : t.State) → tl.Synced a b → tl.Synced b a) (turns : List Turn)
        (client server : End f t ch codec) (reg : Registry fl)
        (signs : Signs f w k embedder (ends_of f t ch codec w k embedder 0 0 client server) 0)
        → d.local_id ≡ client.conn.local_id
        → Linked f t ch codec tl cl client server
        → Possible client.conn server.conn turns reg
        → ((run_session turns (client, server, reg)).0
            ≡ (promised_session server.conn.peer.id turns reg).0)
          × ((run_session turns (client, server, reg)).1.2
              ≡ (promised_session server.conn.peer.id turns reg).1)
          × Linked f t ch codec tl cl
              (run_session turns (client, server, reg)).1.0
              (run_session turns (client, server, reg)).1.1
    unfolding run_session promised_session
    run_session-promised_session tl cl pl mirrored [] client server reg signs own link possible =
        (refl, refl, link)
    run_session-promised_session tl cl pl mirrored (x ∷ xs) client server reg signs own link
          possible =
        let s =
          performed (wired f t ch codec w k embedder x.asked x.answered) c d x.fresh x.op
            (client, server, reg) in
        let p = promised w k embedder x.asked server.conn.peer.id x.op reg in
        let one =
          wired-promised f t ch codec w k embedder x.asked x.answered client server c d x.fresh tl
            cl pl mirrored signs own possible.0 possible.1 x.op reg link possible.2 possible.3 in
        let later : Possible s.1.0.conn s.1.1.conn xs s.1.2 = rw (one.3, one.4, one.1) possible.4 in
        let rest =
          run_session-promised_session tl cl pl mirrored xs s.1.0 s.1.1 s.1.2 signs
            (own ∙ ap (λ a. a.local_id) (sym one.3)) one.2 later in
        let same : promised_session s.1.1.conn.peer.id xs s.1.2
            ≡ promised_session server.conn.peer.id xs p.1 =
          ap (λ b. promised_session b.peer.id xs s.1.2) one.4
          ∙ ap (promised_session server.conn.peer.id xs) one.1 in
        (
          ap (λ r. r ∷ (run_session xs s.1).0) one.0
              ∙ ap (λ rs. p.0 ∷ rs) (rest.0 ∙ ap (λ y. y.0) same),
          rest.1 ∙ ap (λ y. y.1) same,
          rest.2,
        )
