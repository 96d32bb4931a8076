-- ===== src/Net/Wired/Closing.antt =====
-- `flush` and `Drop` of a connection, of crates/thicket-net/src/conn.rs.
use thicket_ai.Base.{
  ℕ, zero, suc, ◌+◌, ◌≡◌, ◌<◌, ◌⊎◌, refl, inl, inr, true, false, [], Bytes, ◌==◌, ℕ_eq, arith,
  Bool-cases,
}
use thicket_ai.Interconnect.{Fabric}
use thicket_ai.Net.Sealing.{Transport}
use thicket_ai.Net.Routing.{Channels}
use thicket_ai.Net.Conn.{Codec}
use thicket_ai.Net.Wired.{End, write_next, read_next}

module _ (ch : Channels) (tx : ch.OutTx) (world : ℕ → ch.World) where
  -- the loop of `flush`, whose rounds see the worlds that the other tasks leave: the round in which it
  -- returns
  unfoldable pub flush_from : ℕ → ℕ → ℕ
  flush_from zero i = i
  flush_from (suc rounds) i = elim (ch.capacity (world i) tx == ch.max_capacity tx) [
    | true ↦ i
    | false ↦ flush_from rounds (i + 1)
  ]

  unfoldable pub flush : ℕ
  flush = flush_from 1000 0

  flush_from_lem :
      (rounds i : ℕ)
      → ((ch.capacity (world (flush_from rounds i)) tx ≡ ch.max_capacity tx)
          × (flush_from rounds i < i + rounds))
        ⊎ (flush_from rounds i ≡ i + rounds)
  unfolding flush_from
  flush_from_lem zero i = inr (omega arith)
  flush_from_lem (suc rounds) i =
      elim (Bool-cases (ch.capacity (world i) tx == ch.max_capacity tx)) [
        | inl full ↦ rw (full, flush_from) (inl (ground (arith, full), omega arith))
        | inr less ↦
            rw (less, flush_from)
              (elim (flush_from_lem rounds (i + 1)) [
                | inl (full, early) ↦ inl (full, omega (arith, early))
                | inr late ↦ inr (omega (arith, late))
              ])
      ]

  -- Flushing ends: in a round in which the queue of the writer is empty, or after a thousand rounds.
  pub flush_ends :
      ((ch.capacity (world flush) tx ≡ ch.max_capacity tx) × (flush < 1000)) ⊎ (flush ≡ 1000)
  unfolding flush
  flush_ends = elim (flush_from_lem 1000 0) [
    | inl (full, early) ↦ inl (full, omega (arith, early))
    | inr late ↦ inr (omega (arith, late))
  ]

module _ (f : Fabric) (t : Transport) (ch : Channels) (c : Codec) where
  -- `Drop`: the two tasks are aborted, and the queue of the writer goes with its task
  unfoldable pub drop_conn : End f t ch c → End f t ch c
  drop_conn e = record e {
    tables = record e.tables { world = ch.close_frames e.tables.world e.out_rx };
    writing = false;
    reading = false;
  }

  -- A connection that was dropped writes nothing and lets nothing in.
  pub drop_conn-silent :
      (e : End f t ch c) (now : ℕ) (stream : Bytes)
      → (write_next f t ch c (drop_conn e) ≡ ([], drop_conn e))
        × (read_next f t ch c now stream (drop_conn e) ≡ drop_conn e)
  unfolding drop_conn write_next read_next
  drop_conn-silent e now stream = (refl, refl)
