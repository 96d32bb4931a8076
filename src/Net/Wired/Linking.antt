-- ===== src/Net/Wired/Linking.antt =====
-- From two handshakes to the two ends of an idle connection.
use thicket_ai.Base.{
  ℕ, ◌≡◌, refl, inl, inr, true, false, Option, some, [], ◌++◌, ok, Bytes, arith, Result-cases,
}
use thicket_ai.Core.{ResourceId, Writer}
use thicket_ai.Interconnect.{Fabric}
use thicket_ai.Net.{LocalIdentity, VerifiedPeer}
use thicket_ai.Net.Sealing.{Transport}
use thicket_ai.Net.Sealing.Opening.{TransportLaws}
use thicket_ai.Net.Routing.{Channels, Tables}
use thicket_ai.Net.Conn
use thicket_ai.Net.Conn.{Codec, Conn, expect_peer}
use thicket_ai.Net.Establish.{Noise, ProofCodec, handshake_over}
use thicket_ai.Net.Establish.Mutual.{
  NoiseLaws, SplitLaws, ProofReadsBack, handshake_over_mutual, handshake_over-Synced,
}
use thicket_ai.Net.Wired.{End}
use thicket_ai.Net.Wired.Laws.{ChannelLaws, Linked}

module _ (f : Fabric) (t : Transport) (ch : Channels) (c : Codec) where
  -- the end whose tasks have just been started
  abbrev pub started : Conn f t ch c × Tables ch × t.State × ch.OutRx → End f t ch c
  started (conn, tables, state, out_rx) = record {
    conn = conn;
    tables = tables;
    state = state;
    out_rx = out_rx;
    writing = true;
    reading = true;
  }

  -- what a handshake and new channels make
  abbrev fresh_end :
      LocalIdentity
      → ch.World
      → t.State × VerifiedPeer
      → Conn f t ch c × Tables ch × t.State × ch.OutRx
  fresh_end local world done =
      let out = ch.out_channel 256 world in
      let inbound = ch.channel 256 out.1 in
      (
        record {
          local_id = local.id;
          working = local.working;
          peer = done.1;
          out_tx = out.0.0;
          inbound = inbound.0.1;
        },
        record {
          pending = [];
          streams = [];
          event_subs = [];
          inbound = inbound.0.0;
          world = inbound.1;
        },
        done.0,
        out.0.1,
      )

  establish_made :
      (local : LocalIdentity) (expected : Option ResourceId) (world : ch.World)
      (done : t.State × VerifiedPeer) (made : Conn f t ch c × Tables ch × t.State × ch.OutRx)
      → Conn.establish f t ch c local expected world (some (ok done)) ≡ ok made
      → fresh_end local world done ≡ made
  unfolding Conn.establish
  establish_made local expected world done made h =
      elim (Result-cases (expect_peer f t ch c expected done.1)) [
        | inl (e, failed) ↦ absurd (ground arith)
        | inr (u, met) ↦ ground arith
      ]

  -- Two ends whose handshakes complete over each other's bytes, and whose connections are then made,
  -- are linked: their transports agree, each has the other as its peer, by its id and the key that it
  -- signs with, their tasks run and their queues are empty. The codec reads back both proofs.
  pub connected-Linked :
      (write_bytes : Writer Bytes) (n : Noise t) (proofs : ProofCodec) (laws : NoiseLaws n)
      (tl : TransportLaws t) (splits : SplitLaws laws tl) (cl : ChannelLaws ch)
      (entropy_i entropy_r : Bytes) (local_i local_r : LocalIdentity) (now_i now_r : ℕ)
      (rest_i rest_r written_i written_r tail_i tail_r : Bytes)
      (done_i done_r : t.State × VerifiedPeer) (expected_i expected_r : Option ResourceId)
      (world_i world_r : ch.World) (made_i made_r : Conn f t ch c × Tables ch × t.State × ch.OutRx)
      → ProofReadsBack f.kernel write_bytes t n proofs entropy_i local_i
      → ProofReadsBack f.kernel write_bytes t n proofs entropy_r local_r
      → handshake_over f.kernel write_bytes t n proofs entropy_i local_i true now_i
          (written_r ++ tail_r)
        ≡ ok (done_i, rest_i, written_i)
      → handshake_over f.kernel write_bytes t n proofs entropy_r local_r false now_r
          (written_i ++ tail_i)
        ≡ ok (done_r, rest_r, written_r)
      → Conn.establish f t ch c local_i expected_i world_i (some (ok done_i)) ≡ ok made_i
      → Conn.establish f t ch c local_r expected_r world_r (some (ok done_r)) ≡ ok made_r
      → Linked f t ch c tl cl (started made_i) (started made_r)
  connected-Linked write_bytes n proofs laws tl splits cl entropy_i entropy_r local_i local_r now_i
        now_r rest_i rest_r written_i written_r tail_i tail_r done_i done_r expected_i expected_r
        world_i world_r made_i made_r back_i back_r hi hr ei er =
      let known =
        handshake_over_mutual f.kernel write_bytes t n proofs laws entropy_i entropy_r local_i
          local_r now_i now_r rest_i rest_r written_i written_r tail_i tail_r done_i done_r back_i
          back_r hi hr in
      let agree =
        handshake_over-Synced f.kernel write_bytes t n proofs laws tl splits entropy_i entropy_r
          local_i local_r now_i now_r rest_i rest_r written_i written_r tail_i tail_r done_i done_r
          hi hr in
      rw
        (
          ← establish_made local_i expected_i world_i done_i made_i ei,
          ← establish_made local_r expected_r world_r done_r made_r er,
        )
        (record {
          synced = agree;
          knows = known.2;
          knows_key = known.3;
          known = known.0;
          known_key = known.1;
          running = (refl, refl);
          running' = (refl, refl);
          idle = cl.opened 256 256 world_i;
          idle' = cl.opened 256 256 world_r;
        })
