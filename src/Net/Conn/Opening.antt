-- ===== src/Net/Conn/Opening.antt =====
-- `Conn::connect` and `Conn::accept` of crates/thicket-net/src/conn.rs: the handshake, in time or
-- not, and what is made of it.
use thicket_ai.Base.{ℕ, Bool, true, false, Option, none, some, Result, map_ok, Bytes, if◌then◌else◌}
use thicket_ai.Core.{ResourceId, Writer}
use thicket_ai.Interconnect.{Fabric}
use thicket_ai.Net.{Error, LocalIdentity}
use thicket_ai.Net.Sealing.{Transport}
use thicket_ai.Net.Routing.{Channels, Tables}
use thicket_ai.Net.Establish.{Noise, ProofCodec, handshake_over}
use thicket_ai.Net.Conn.{Codec, Conn, establish}

module _ (f : Fabric) (write_bytes : Writer Bytes) (t : Transport) (n : Noise t)
    (proofs : ProofCodec) (ch : Channels) (c : Codec) where
  -- a connection, with the tables, the transport and the queue that its tasks share
  abbrev pub Opened : Type 0
  Opened = Conn f t ch c × Tables ch × t.State × ch.OutRx

  -- `establish` on a stream, with the entropy and the time of its handshake, and whether it ends
  -- before the timeout
  unfoldable pub establish_over :
      Bool
      → Bytes
      → LocalIdentity
      → Option ResourceId
      → ℕ
      → Bool
      → Bytes
      → ch.World
      → Result Error Opened
  establish_over initiator entropy local expected_peer now in_time stream world =
      establish f t ch c local expected_peer world (
        if in_time
        then some (
            map_ok (λ x. x.0)
              (handshake_over f.kernel write_bytes t n proofs entropy local initiator now stream))
        else none)

  -- `Conn::connect` and `Conn::accept`
  unfoldable pub connect :
      Bytes → LocalIdentity → Option ResourceId → ℕ → Bool → Bytes → ch.World → Result Error Opened
  unfolding establish_over
  connect = establish_over true

  unfoldable pub accept_peer :
      Bytes → LocalIdentity → Option ResourceId → ℕ → Bool → Bytes → ch.World → Result Error Opened
  unfolding establish_over
  accept_peer = establish_over false
