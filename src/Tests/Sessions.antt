-- ===== src/Tests/Sessions.antt =====
-- A session of two turns over one connection.
use mathlib.Core.Path.{subst}
use thicket_ai.Base.{◌≡◌, refl, sym, ◌∙◌, List, [], ◌∷◌, ok, Bytes, arith, String}
use thicket_ai.Interconnect.Data.{SignedEnvelope}
use thicket_ai.Interconnect.Envelope.{sign_envelope}
use thicket_ai.Net.Server.{to_request, to_response}
use thicket_ai.Net.Wired.Laws.{Linked}
use thicket_ai.Net.Wired.Round.{Portable}
use thicket_ai.Registry.{Registry}
use thicket_ai.Directory.Client.Service.{Signs}
use thicket_ai.Directory.Client.Promise.{deregisters, promised}
use thicket_ai.Directory.Client.Simulation.{asking, Asks}
use thicket_ai.Directory.Client.Wired.{ends_of, Travels}
use thicket_ai.Directory.Client.Session.{
  Turn, promised_session, run_session, Possible, run_session-promised_session,
}
use thicket_ai.Tests.World.{
  toy_kernel, toy_laws, toy_fabric, delegate, whole, by_length, worker, id, other_id,
}
use thicket_ai.Tests.Queues.{queues, queue_laws}
use thicket_ai.Tests.Link.{clear, clear_laws}
use thicket_ai.Tests.Directories.{wire, client_wire, client}
use thicket_ai.Tests.Wires.{
  start_of, sealed, signed, ok_injective, withdrawal, by_client, pair_codec, client_end, server_end,
  service, linked, request_Portable, response_Portable, signs_answer,
}

signs :
    Signs toy_fabric wire toy_kernel by_length
      (ends_of toy_fabric clear queues pair_codec wire toy_kernel by_length 0 0 client_end
        server_end)
      0
signs p key = (sealed key p, signed p key)

withdrawal-Travels :
    (reg : Registry whole)
    → Travels toy_fabric clear queues pair_codec wire toy_kernel by_length 15 16 client_end.conn
        server_end.conn reg withdrawal
withdrawal-Travels reg env e =
    subst
      (λ (x : SignedEnvelope).
        Portable toy_fabric clear queues pair_codec x
        × ((resp : SignedEnvelope)
            → sign_envelope toy_fabric
                (to_response other_id by_client x (service reg (to_request other_id by_client x)).0)
                delegate
              ≡ ok resp
            → Portable toy_fabric clear queues pair_codec resp))
      (ok_injective (sym (signed withdrawal worker) ∙ e))
      (
        request_Portable,
        (λ resp e'.
            subst (λ (x : SignedEnvelope). Portable toy_fabric clear queues pair_codec x)
              (ok_injective (sym (signs_answer reg) ∙ e')) response_Portable),
      )

body-Travels :
    (reg : Registry whole) (capability : String) (body : Bytes)
    → Asks client_wire client (7 ∷ []) deregisters capability body
    → Travels toy_fabric clear queues pair_codec wire toy_kernel by_length 15 16 client_end.conn
        server_end.conn reg
        (asking client_wire client (7 ∷ []) capability body)
body-Travels reg capability body (named, coded) =
    let same : ◌≡◌ {A = Bytes} [] body = ground (arith, coded) in
    rw (named, ← same) (withdrawal-Travels reg)

abbrev turns : List Turn
turns =
    record { op = deregisters; fresh = 7 ∷ []; asked = 15; answered = 16 }
    ∷ record { op = deregisters; fresh = 7 ∷ []; asked = 15; answered = 16 }
    ∷ []

possible :
    Possible wire toy_kernel by_length toy_fabric clear queues pair_codec client_wire client
      client_end.conn server_end.conn turns start_of
possible = (
  omega arith,
  omega arith,
  ([], refl, refl),
  body-Travels start_of,
  (
    omega arith,
    omega arith,
    ([], refl, refl),
    body-Travels (promised wire toy_kernel by_length 15 id deregisters start_of).1,
    tt,
  ),
)

run_session-promised_session_example :
    ((run_session wire toy_kernel by_length toy_fabric clear queues pair_codec client_wire client
        turns
        (client_end, server_end, start_of)).0
      ≡ (promised_session wire toy_kernel by_length id turns start_of).0)
    × ((run_session wire toy_kernel by_length toy_fabric clear queues pair_codec client_wire client
          turns
          (client_end, server_end, start_of)).1.2
        ≡ (promised_session wire toy_kernel by_length id turns start_of).1)
    × Linked toy_fabric clear queues pair_codec clear_laws queue_laws
        (run_session wire toy_kernel by_length toy_fabric clear queues pair_codec client_wire client
          turns
          (client_end, server_end, start_of)).1.0
        (run_session wire toy_kernel by_length toy_fabric clear queues pair_codec client_wire client
          turns
          (client_end, server_end, start_of)).1.1
run_session-promised_session_example =
    run_session-promised_session wire toy_kernel by_length toy_fabric clear queues pair_codec
      client_wire client clear_laws queue_laws toy_laws (λ a b e. sym e) turns client_end server_end
      start_of signs refl linked possible
