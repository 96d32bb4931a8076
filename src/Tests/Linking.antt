-- ===== src/Tests/Linking.antt =====
-- Two ends of one node that dial each other and are linked.
use thicket_ai.Base.{ℕ, ◌≡◌, refl, none, some, [], ok, Result, String, arith}
use thicket_ai.Net.Conn
use thicket_ai.Net.Routing.{Tables}
use thicket_ai.Net.Establish.Mutual.{SplitLaws}
use thicket_ai.Net.Wired.Laws.{Linked}
use thicket_ai.Net.Wired.Linking.{started, connected-Linked}
use thicket_ai.Tests.World.{toy_fabric}
use thicket_ai.Tests.Channel.{plain, local, worker_peer}
use thicket_ai.Tests.Link.{clear, clear_laws, one_envelope}
use thicket_ai.Tests.Queues.{Queues, queues, queue_laws}
use thicket_ai.Tests.Dialing.{
  open_noise, open_laws, one_proof, wire, sent, replied, handshake_runs, responder_runs, reads_back,
}

counts_agree :
    (ti tr : ℕ)
    → ◌≡◌ {A = Result String ℕ} (ok 0) (ok ti)
    → ◌≡◌ {A = Result String ℕ} (ok 0) (ok tr)
    → ti ≡ tr
counts_agree ti tr a b = ground arith

splits : SplitLaws open_laws clear_laws
splits = record { split = λ i r ti tr over a b. counts_agree ti tr a b }

abbrev no_messages : Queues
no_messages = record { frames = []; inbox = []; told = [] }

abbrev made : Conn.Conn toy_fabric clear queues one_envelope × Tables queues × ℕ × Unit {0}
made = (
  record {
    local_id = local.id;
    working = local.working;
    peer = worker_peer;
    out_tx = tt;
    inbound = tt;
  },
  record { pending = []; streams = []; event_subs = []; inbound = tt; world = no_messages },
  0,
  tt,
)

establish_runs :
    Conn.establish toy_fabric clear queues one_envelope local none no_messages
      (some (ok (0, worker_peer)))
    ≡ ok made
unfolding Conn.establish Conn.expect_peer
establish_runs = refl

connected-Linked_example :
    Linked toy_fabric clear queues one_envelope clear_laws queue_laws
      (started toy_fabric clear queues one_envelope made)
      (started toy_fabric clear queues one_envelope made)
connected-Linked_example =
    connected-Linked toy_fabric clear queues one_envelope plain open_noise one_proof open_laws
      clear_laws splits queue_laws [] [] local local 15 15 wire [] sent replied [] wire
      (0, worker_peer) (0, worker_peer) none none no_messages no_messages made made reads_back
      reads_back handshake_runs responder_runs establish_runs establish_runs
