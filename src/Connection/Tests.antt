-- ===== src/Connection/Tests.antt =====
-- The theorems on connections at concrete runs.
use module_nats.Common.{ℕ, ◌+◌, ◌≤◌, pos, ◌≡◌, ◌≢◌, refl, true, false, some, [], ◌∷◌, arith, Option}
use module_nats.Value.{Value, Fields, end, field}
use module_nats.Runtime.{Status, Result, done}
use module_nats.Connection.Callbacks.{
  System, closed, connected, new_context, connect, release, closed_handler, Reach, later, connects,
  destructs, closes, Reach-Deleted,
}
use module_nats.Connection.Client.{Client, Connection}
use module_nats.Connection.Calls.{flush, close, drain, publish, publish_msg}
use module_nats.Connection.Flush.{spent, flush-Within}
use module_nats.Connection.Forked.{Abandoned, Call, Calls, none_yet, then_one, close-Abandoned}
use module_nats.Connection.Headers.{sent, publish_msg-sent}

-- The closed callback runs after the destructor.
abbrev ended : System
ended = record {
  context = closed_handler true (release (connect true (new_context 2)));
  closing = closed;
  held = false;
}

ended-Reach : Reach 2 ended
ended-Reach =
    later (later (later Reach.start (connects true refl refl)) (destructs refl)) (closes true refl)

Reach-Deleted_example :
    (ended.context.used_deleted ≡ 0)
    × (ended.held ≡ true → ended.context.deleted ≡ 0)
    × (ended.closing ≡ connected → ended.context.deleted ≡ 0)
    × (ended.held ≡ false
        → ended.closing ≢ connected
        → (ended.context.deleted ≡ 1) × (ended.context.given_back ≡ 3))
Reach-Deleted_example = Reach-Deleted 2 ended-Reach

abbrev client : Client
client = record {
  poll_interval = 250;
  check_cancel = λ tr. false;
  call_status = λ tr name args. Status.nats_ok;
  flush_timeout = λ tr w. Status.nats_timeout;
  is_closed = λ tr. false;
}

abbrev opened : Connection
opened = record { creator = 11; is_set = true; trace = [] }

flush-Within_example :
    (v : Result (Unit {0}) × Connection) × (flush client 600 (pos 500) opened ≡ some v)
    × (spent v.1.trace ≤ spent opened.trace + 500)
flush-Within_example = flush-Within client 600 500 opened (omega arith) (omega arith)

abbrev child : ℕ
child = 12

abbrev after : Connection
after = (publish client "greet" (104 ∷ []) (drain client (close client child opened)).1).1

child-Calls : Calls child (close client child opened) after
child-Calls =
    then_one (then_one none_yet (Call.drains client)) (Call.publishes client "greet" (104 ∷ []))

close-Abandoned_example : (after.trace ≡ opened.trace) × Abandoned client after
close-Abandoned_example = close-Abandoned client client opened (λ e. omega (arith, e)) child-Calls

abbrev headers : Option Fields
headers = some (field "a" (Value.str "1") (field "b" (Value.int (pos 2)) end))

published : Connection
published = (publish_msg client "greet" (104 ∷ []) headers opened).1

publish_run : publish_msg client "greet" (104 ∷ []) headers opened ≡ (done, published)
unfolding publish_msg published
publish_run = refl

publish_msg-sent_example : published.trace ≡ sent "greet" (104 ∷ []) headers opened.trace
publish_msg-sent_example =
    publish_msg-sent client "greet" (104 ∷ []) headers opened published publish_run
