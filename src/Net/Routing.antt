-- ===== src/Net/Routing.antt =====
-- `route` of crates/thicket-net/src/conn.rs, and what a connection keeps. The channels are tokio's: a
-- sender is a name, and sending is a change of the world in which the receivers stand.
pub mod Delivery
use thicket_ai.Base.{
  String, Bool, true, false, Option, none, some, Bytes, String_eq, List_eq, ℕ_eq, ℕ, if◌then◌else◌,
}
use thicket_ai.Base.Dict
use thicket_ai.Base.Dict.{Dict}
use thicket_ai.Interconnect.Data.{EnvelopeType, SignedEnvelope}
use thicket_ai.Net.Server.{or_empty}

pub record Channels : Type 1 where
  pub World : Type 0
  -- `oneshot::Sender` and `mpsc::Sender`
  pub Oneshot : Type 0
  pub Sender : Type 0
  -- `send`, whose failure the code ignores
  pub send_once : World → Oneshot → SignedEnvelope → World
  -- `try_send`, and whether it succeeded
  pub try_send : World → Sender → SignedEnvelope → Bool × World
  -- `oneshot::Receiver` and `mpsc::Receiver`, and the channels that are made with a capacity
  pub OnceReceiver : Type 0
  pub Receiver : Type 0
  pub once_channel : World → (Oneshot × OnceReceiver) × World
  pub channel : ℕ → World → (Sender × Receiver) × World
  -- the queue of the writer: `send`, and whether it succeeded
  pub OutTx : Type 0
  pub OutRx : Type 0
  pub out_channel : ℕ → World → (OutTx × OutRx) × World
  pub send_frame : World → OutTx → Bytes → Bool × World
  pub capacity : World → OutTx → ℕ
  pub max_capacity : OutTx → ℕ
  -- what the receivers hold, taken out: none where nothing has come
  pub recv_frame : World → OutRx → Option (Bytes × World)
  -- the queue of the writer, closed by the end of its task
  pub close_frames : World → OutRx → World
  pub recv : World → Receiver → Option (SignedEnvelope × World)
  pub recv_once : World → OnceReceiver → Option (SignedEnvelope × World)

module _ (ch : Channels) where
  -- `pending`, `streams`, `event_subs` and `inbound_tx`
  pub record Tables : Type 0 where
    pub pending : Dict Bytes ch.Oneshot
    pub streams : Dict Bytes ch.Sender
    pub event_subs : Dict String ch.Sender
    pub inbound : ch.Sender
    pub world : ch.World

  -- the result of a `try_send` that the code ignores
  unfoldable pub offer : Tables → ch.Sender → SignedEnvelope → Tables
  offer t tx env = record t { world = (ch.try_send t.world tx env).1 }

  unfoldable pub route_response : SignedEnvelope → Tables → Tables
  route_response env t = elim (Dict.get env.payload.correlation t.pending) [
    | none ↦ record t { pending = Dict.remove env.payload.correlation t.pending }
    | some tx ↦ record t {
      pending = Dict.remove env.payload.correlation t.pending;
      world = ch.send_once t.world tx env;
    }
  ]

  unfoldable pub end_stream : SignedEnvelope → Tables → Tables
  end_stream env t =
      if env.payload.stream_end
      then record t { streams = Dict.remove env.payload.correlation t.streams }
      else t

  unfoldable pub drop_stream : SignedEnvelope → Tables → Tables
  drop_stream env t = record t { streams = Dict.remove env.payload.correlation t.streams }

  unfoldable pub route_chunk : SignedEnvelope → Tables → Tables
  unfolding end_stream drop_stream offer
  route_chunk env t = elim (Dict.get env.payload.correlation t.streams) [
    | none ↦ end_stream env t
    | some tx ↦
        if (ch.try_send t.world tx env).0
        then end_stream env (offer t tx env)
        else drop_stream env (offer t tx env)
  ]

  unfoldable pub route_event : SignedEnvelope → Tables → Tables
  unfolding offer
  route_event env t = elim (Dict.get (or_empty env.payload.capability) t.event_subs) [
    | some tx ↦ offer t tx env
    | none ↦ offer t t.inbound env
  ]

  -- the arms of the `match`
  unfoldable pub route_as : EnvelopeType → SignedEnvelope → Tables → Tables
  unfolding route_response route_chunk route_event offer
  route_as EnvelopeType.response env t = route_response env t
  route_as EnvelopeType.error env t = route_response env t
  route_as EnvelopeType.stream_chunk env t = route_chunk env t
  route_as EnvelopeType.event env t = route_event env t
  route_as EnvelopeType.request env t = offer t t.inbound env
  route_as EnvelopeType.cancel env t = offer t t.inbound env

  unfoldable pub route : SignedEnvelope → Tables → Tables
  unfolding route_as
  route env t = route_as env.payload.typ env t
