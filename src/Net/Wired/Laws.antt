-- ===== src/Net/Wired/Laws.antt =====
-- What the code relies on of tokio's channels and of the two directions of a Noise transport.
use thicket_ai.Base.{ℕ, true, some, ◌≡◌, Bytes}
use thicket_ai.Interconnect.Data.{SignedEnvelope}
use thicket_ai.Core.Identity.{working_public}
use thicket_ai.Interconnect.{Fabric}
use thicket_ai.Net.Routing.{Channels}
use thicket_ai.Net.Sealing.{Transport}
use thicket_ai.Net.Sealing.Opening.{TransportLaws}
use thicket_ai.Net.Conn.{Codec}
use thicket_ai.Net.Wired.{End}

-- The queues of one connection are open and empty, and a oneshot is fresh: what is sent is what is
-- received next, and leaves the queues as they were. Nothing is said of a full or a closed queue.
pub record ChannelLaws (ch : Channels) : Type 1 where
  pub Idle : ch.World → ch.OutTx → ch.OutRx → ch.Sender → ch.Receiver → Type 0
  pub Fresh : ch.World → ch.Oneshot → ch.OnceReceiver → Type 0
  pub once :
      (w : ch.World) (tx : ch.OutTx) (rx : ch.OutRx) (itx : ch.Sender) (irx : ch.Receiver)
      → Idle w tx rx itx irx
      → Idle (ch.once_channel w).1 tx rx itx irx
        × Fresh (ch.once_channel w).1 (ch.once_channel w).0.0 (ch.once_channel w).0.1
  pub frame :
      (w : ch.World) (tx : ch.OutTx) (rx : ch.OutRx) (itx : ch.Sender) (irx : ch.Receiver)
      (b : Bytes)
      → Idle w tx rx itx irx
      → (w' : ch.World) × ((ch.send_frame w tx b).0 ≡ true)
        × (ch.recv_frame (ch.send_frame w tx b).1 rx ≡ some (b, w'))
        × Idle w' tx rx itx irx
        × ((o : ch.Oneshot) (r : ch.OnceReceiver) → Fresh w o r → Fresh w' o r)
  pub inbound :
      (w : ch.World) (tx : ch.OutTx) (rx : ch.OutRx) (itx : ch.Sender) (irx : ch.Receiver)
      (env : SignedEnvelope)
      → Idle w tx rx itx irx
      → (w' : ch.World) × (ch.recv (ch.try_send w itx env).1 irx ≡ some (env, w'))
        × Idle w' tx rx itx irx
  pub answer :
      (w : ch.World) (tx : ch.OutTx) (rx : ch.OutRx) (itx : ch.Sender) (irx : ch.Receiver)
      (o : ch.Oneshot) (r : ch.OnceReceiver) (env : SignedEnvelope)
      → Idle w tx rx itx irx
      → Fresh w o r
      → (w' : ch.World) × (ch.recv_once (ch.send_once w o env) r ≡ some (env, w'))
        × Idle w' tx rx itx irx
  -- the two channels of a new connection are open and empty
  pub opened :
      (n m : ℕ) (w : ch.World)
      → Idle
          (ch.channel m (ch.out_channel n w).1).1
          (ch.out_channel n w).0.0
          (ch.out_channel n w).0.1
          (ch.channel m (ch.out_channel n w).1).0.0
          (ch.channel m (ch.out_channel n w).1).0.1

module _ (f : Fabric) (t : Transport) (ch : Channels) (c : Codec) where
  -- The two ends of an idle connection: what one seals the other opens, each knows the other by the id
  -- and the key that it signs with, and the queues are empty.
  pub record Linked (tl : TransportLaws t) (cl : ChannelLaws ch) (a b : End f t ch c) : Type 0 where
    pub synced : tl.Synced a.state b.state
    pub knows : b.conn.peer.id ≡ a.conn.local_id
    pub knows_key : b.conn.peer.working_pub ≡ working_public f.kernel a.conn.working
    pub known : a.conn.peer.id ≡ b.conn.local_id
    pub known_key : a.conn.peer.working_pub ≡ working_public f.kernel b.conn.working
    pub running : (a.writing ≡ true) × (a.reading ≡ true)
    pub running' : (b.writing ≡ true) × (b.reading ≡ true)
    pub idle : cl.Idle a.tables.world a.conn.out_tx a.out_rx a.tables.inbound a.conn.inbound
    pub idle' : cl.Idle b.tables.world b.conn.out_tx b.out_rx b.tables.inbound b.conn.inbound
