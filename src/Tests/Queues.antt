-- ===== src/Tests/Queues.antt =====
-- Channels that are queues without a bound, in one world: the frames of the writer, the envelopes of the
-- inbound queue, and what the last oneshot was told.
use thicket_ai.Base.{
  ◌≡◌, refl, is_nil, if◌then◌else◌, true, Option, none, some, List, [], ◌∷◌, ◌++◌, Bytes,
}
use thicket_ai.Interconnect.Data.{SignedEnvelope}
use thicket_ai.Net.Routing.{Channels}
use thicket_ai.Net.Wired.Laws.{ChannelLaws}

pub record Queues : Type 0 where
  pub frames : List Bytes
  pub inbox : List SignedEnvelope
  pub told : List SignedEnvelope

abbrev pub pop_frame : Queues → List Bytes → Option (Bytes × Queues)
pop_frame w [] = none
pop_frame w (b ∷ bs) = some (b, record w { frames = bs })

abbrev pub pop_inbox : Queues → List SignedEnvelope → Option (SignedEnvelope × Queues)
pop_inbox w [] = none
pop_inbox w (e ∷ es) = some (e, record w { inbox = es })

abbrev pub pop_told : Queues → List SignedEnvelope → Option (SignedEnvelope × Queues)
pop_told w [] = none
pop_told w (e ∷ es) = some (e, record w { told = es })

abbrev pub queues : Channels
queues = record {
  World = Queues;
  Oneshot = Unit;
  Sender = Unit;
  send_once = λ w tx env. record w { told = env ∷ w.told };
  try_send = λ w tx env. (true, record w { inbox = w.inbox ++ (env ∷ []) });
  OnceReceiver = Unit;
  Receiver = Unit;
  once_channel = λ w. ((tt, tt), record w { told = [] });
  channel = λ n w. ((tt, tt), record w { inbox = [] });
  OutTx = Unit;
  OutRx = Unit;
  out_channel = λ n w. ((tt, tt), record w { frames = [] });
  send_frame = λ w tx b. (true, record w { frames = w.frames ++ (b ∷ []) });
  capacity = λ w tx. if is_nil w.frames then 256 else 255;
  max_capacity = λ tx. 256;
  recv_frame = λ w rx. pop_frame w w.frames;
  close_frames = λ w rx. w;
  recv = λ w rx. pop_inbox w w.inbox;
  recv_once = λ w rx. pop_told w w.told;
}

abbrev pub queue_laws : ChannelLaws queues
queue_laws = record {
  Idle = λ w tx rx itx irx. (w.frames ≡ []) × (w.inbox ≡ []);
  Fresh = λ w o r. w.told ≡ [];
  once = λ w tx rx itx irx i. (i, refl);
  frame = λ w tx rx itx irx b i.
      (record w { frames = [] }, refl, rw i.0 refl, (refl, i.1), (λ o r fresh. fresh));
  inbound = λ w tx rx itx irx env i. (record w { inbox = [] }, rw i.1 refl, (i.0, refl));
  answer = λ w tx rx itx irx o r env i fresh. (w, rw fresh refl, i);
  opened = λ n m w. (refl, refl);
}
