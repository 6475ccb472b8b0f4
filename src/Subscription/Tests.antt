-- ===== src/Subscription/Tests.antt =====
-- The theorems on subscriptions at concrete runs.
use module_nats.Common.{ℕ, ℤ, pos, ◌≡◌, ◌≢◌, refl, true, false, none, some, List, [], ◌∷◌, arith}
use module_nats.Runtime.{Status, ok}
use module_nats.Message.{Content, MsgInfo, nats_msg_to_hash}
use module_nats.Common.Int.{◌-ℤ◌}
use module_nats.Poll.{proceed, resume, effective}
use module_nats.Poll.Ends.{Returns}
use module_nats.Subscription.Client.{Event, waited, Client, Subscription, create, destroy}
use module_nats.Subscription.Receive.{next_msg, fetch, wait_for_drain_completion, drain_failed}
use module_nats.Subscription.Acks.{ack, nak, in_progress, term}
use module_nats.Subscription.LastMsg.{About, next_msg-About}
use module_nats.Subscription.Memory.{got, freed}
use module_nats.Subscription.Life.{Reach, created, later, next_msgs, acks, destroy-Reach}
use module_nats.Subscription.Waits.{
  Answered, Drained, next_msg-Answered, wait_for_drain_completion-Drained,
}
use module_nats.Subscription.Ends.{polling_methods-Returns}

abbrev hello : Content
hello = record {
  subject = some "greet";
  payload = some (104 ∷ 105 ∷ []);
  reply = none;
  keys_status = Status.nats_not_found;
  header_keys = [];
}

-- The first wait for a message times out, the second one hands over message 7.
abbrev second_time : List Event → ℤ → Status × ℕ
second_time (waited w st ∷ tr) v = (Status.nats_ok, 7)
second_time (e ∷ waited w st ∷ tr) v = (Status.nats_ok, 7)
second_time _ v = (Status.nats_timeout, 0)

abbrev client : Client
client = record {
  poll_interval = 250;
  check_cancel = λ tr. false;
  next_msg = second_time;
  fetch = λ tr n w. (Status.nats_ok, 3 ∷ 4 ∷ []);
  wait_for_drain_completion = λ tr w. Status.nats_timeout;
  call_status = λ tr call args. Status.nats_ok;
  message = λ m. hello;
  set_refuses = λ key. false;
  is_valid = λ tr. true;
  get_pending = λ tr. (Status.nats_ok, pos 1, pos 2);
  get_delivered = λ tr. (Status.nats_ok, pos 3);
  get_dropped = λ tr. (Status.nats_ok, pos 4);
  get_stats = λ tr. (
    Status.nats_ok,
    record {
      pending_msgs = pos 1;
      pending_bytes = pos 2;
      delivered_msgs = pos 3;
      dropped_msgs = pos 4;
    },
  );
  get_subject = some "greet";
  get_id = pos 1;
  metadata = λ m. (
    Status.nats_ok,
    record {
      domain = none;
      stream = none;
      consumer = none;
      num_delivered = 1;
      stream_seq = 2;
      consumer_seq = 3;
      num_pending = 4;
      timestamp = pos 0;
    },
  );
}

abbrev fresh : Subscription
fresh = create 11 true []

abbrev greeting : MsgInfo
greeting = record {
  subject = some "greet";
  payload = some (104 ∷ 105 ∷ []);
  reply = none;
  headers = none;
}

abbrev after_next : Subscription
after_next = record {
  creator = 11;
  sub = true;
  last_msg = some 7;
  trace =
      Event.received 7
      ∷ waited (pos 50) Status.nats_ok
      ∷ Event.checked false
      ∷ waited (pos 250) Status.nats_timeout
      ∷ Event.checked false
      ∷ Event.checked false
      ∷ [];
}

run : next_msg client 400 (pos 300) fresh ≡ some (ok (some greeting), after_next)
unfolding next_msg proceed resume ◌-ℤ◌ effective nats_msg_to_hash
run = refl

abbrev pid : ℕ
pid = 11

abbrev acked : Subscription
acked = (ack client after_next).1

acked-Reach : Reach client pid true acked
acked-Reach = later (later created (next_msgs 400 (pos 300) (ok (some greeting)) run)) acks

destroy-Reach_example :
    (pid ≡ acked.creator
      → (got 7 (destroy pid acked).trace ≡ freed 7 (destroy pid acked).trace)
        × ((destroy pid acked).last_msg ≡ none)
        × ((destroy pid acked).sub ≡ false))
    × (pid ≢ acked.creator → destroy pid acked ≡ acked)
destroy-Reach_example = destroy-Reach 7 pid client acked-Reach

next_msg-Answered_example : Answered 300 fresh (ok (some greeting)) after_next
next_msg-Answered_example =
    next_msg-Answered client 400 300 fresh (ok (some greeting)) after_next run

abbrev after_drain : Subscription
after_drain = record fresh {
  trace =
      waited (pos 50) Status.nats_timeout
      ∷ Event.checked false
      ∷ waited (pos 250) Status.nats_timeout
      ∷ Event.checked false
      ∷ Event.checked false
      ∷ [];
}

drain_run :
    wait_for_drain_completion client 400 (pos 300) fresh
    ≡ some (drain_failed Status.nats_timeout, after_drain)
unfolding wait_for_drain_completion proceed resume ◌-ℤ◌ effective
drain_run = refl

wait_for_drain_completion-Drained_example :
    Drained 300 fresh (drain_failed Status.nats_timeout) after_drain
wait_for_drain_completion-Drained_example =
    wait_for_drain_completion-Drained client 400 300 fresh (drain_failed Status.nats_timeout)
      after_drain drain_run

polling_methods-Returns_example :
    Returns (next_msg client 301 (pos 300) fresh)
    × Returns (fetch client 301 (pos 5) (pos 300) fresh)
    × Returns (wait_for_drain_completion client 301 (pos 300) fresh)
polling_methods-Returns_example =
    polling_methods-Returns client 301 300 (pos 5) fresh (omega arith) (omega arith)

next_msg-About_example :
    (m : ℕ) × (nats_msg_to_hash client.set_refuses (client.message m) ≡ ok greeting)
    × About m "natsMsg_Ack" (ack client after_next).1.trace
    × About m "natsMsg_Nak" (nak client after_next).1.trace
    × About m "natsMsg_InProgress" (in_progress client after_next).1.trace
    × About m "natsMsg_Term" (term client after_next).1.trace
next_msg-About_example = next_msg-About client 400 (pos 300) fresh greeting after_next run
