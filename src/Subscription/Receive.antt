-- ===== src/Subscription/Receive.antt =====
-- nextMsg, fetch, waitForDrainCompletion, setLastMsg.
use module_nats.Common.{
  ℕ, ℤ, pos, true, false, Option, none, some, List, [], ◌∷◌, ◌++◌, if◌then◌else◌,
}
use module_nats.Common.Int.{ltb_ℤ}
use module_nats.Runtime.{Status, Result, ok, raise, cancelled, failed, done}
use module_nats.Message.{MsgInfo, nats_msg_to_hash}
use module_nats.Poll.{Verdict, finish, timed_out, poll}
use module_nats.Subscription.Client.{
  Client, Subscription, received, destroyed, waited, log, destroy_last, check, subscribe_error,
  invalid,
}

-- The guards in front of each polling loop, and the loop.
unfoldable pub guarded {ℓ} :
    {A : Type ℓ}
    → Client
    → (Subscription → Option (Result A × Subscription))
    → Subscription
    → Option (Result A × Subscription)
unfolding check
guarded c loop s =
    if s.sub
    then (let (stop, t) = check c s in
        elim stop [ true ↦ some (raise cancelled, t) | false ↦ loop t ])
    else some (invalid, s)

-- lastMsg takes the place of the message before it.
unfoldable pub set_last_msg : ℕ → Subscription → Subscription
unfolding destroy_last
set_last_msg m s = record (destroy_last s) { last_msg = some m }

-- a hash, or a null pointer with the exception raised
unfoldable pub returned : Result MsgInfo → Result (Option MsgInfo)
returned (ok h) = ok (some h)
returned (raise e) = raise e

-- The cases of a natsStatus that natsSubscription_NextMsg returned, with the message.
unfoldable pub next_msg_case :
    Client → Status → ℕ → Subscription → Verdict (Option MsgInfo) × Subscription
unfolding set_last_msg returned
next_msg_case c Status.nats_ok m s =
    let t = set_last_msg m (log (received m) s) in
    (finish (returned (nats_msg_to_hash c.set_refuses (c.message m))), t)
next_msg_case c Status.nats_timeout m s = (timed_out, s)
next_msg_case c Status.nats_max_delivered_msgs m s = (finish (ok none), s)
next_msg_case c Status.nats_invalid_subscription m s = (finish (ok none), s)
next_msg_case c st m s =
    (finish (raise (failed subscribe_error st "failed to get next message" [])), s)

unfoldable pub next_msg_wait : Client → ℤ → Subscription → Verdict (Option MsgInfo) × Subscription
unfolding next_msg_case
next_msg_wait c w s =
    let (st, m) = c.next_msg s.trace w in next_msg_case c st m (log (waited w st) s)

-- QoreNatsSubscription::nextMsg; a timeout below 0 waits for ever.
unfoldable pub next_msg :
    Client → ℕ → ℤ → Subscription → Option (Result (Option MsgInfo) × Subscription)
unfolding guarded check next_msg_wait poll
next_msg c fuel timeout_ms = guarded c (
    poll (check c) (next_msg_wait c) c.poll_interval (ltb_ℤ timeout_ms (pos 0)) (ok none) fuel
      timeout_ms)

-- natsMsgList_Destroy: the messages that were not taken out of the list.
unfoldable pub destroy_list : List ℕ → Subscription → Subscription
destroy_list [] s = s
destroy_list (m ∷ ms) s = destroy_list ms (log (destroyed m) s)

-- the messages that a native fetch hands over
unfoldable pub receive_list : List ℕ → Subscription → Subscription
receive_list [] s = s
receive_list (m ∷ ms) s = receive_list ms (log (received m) s)

-- A message of a batch is converted: the batch goes on, or the messages not yet taken are destroyed.
unfoldable pub batch_case :
    (List MsgInfo → Subscription → Result (List MsgInfo) × Subscription)
    → List ℕ
    → List MsgInfo
    → Result MsgInfo
    → Subscription
    → Result (List MsgInfo) × Subscription
unfolding destroy_list
batch_case rest ms out (ok h) s = rest (out ++ h ∷ []) s
batch_case rest ms out (raise e) s = (raise e, destroy_list ms s)

-- The loop over the messages of a batch.
unfoldable pub take_batch :
    Client → List ℕ → List MsgInfo → Subscription → Result (List MsgInfo) × Subscription
unfolding set_last_msg batch_case
take_batch c [] out s = (ok out, s)
take_batch c (m ∷ ms) out s =
    batch_case (take_batch c ms) ms out (nats_msg_to_hash c.set_refuses (c.message m))
      (set_last_msg m s)

unfoldable pub fetch_case :
    Client → Status → List ℕ → Subscription → Verdict (List MsgInfo) × Subscription
unfolding take_batch receive_list
fetch_case c Status.nats_ok ms s =
    let (r, t) = take_batch c ms [] (receive_list ms s) in (finish r, t)
fetch_case c Status.nats_timeout ms s = (timed_out, s)
fetch_case c st ms s = (finish (raise (failed subscribe_error st "failed to fetch messages" [])), s)

unfoldable pub fetch_wait : Client → ℤ → ℤ → Subscription → Verdict (List MsgInfo) × Subscription
unfolding fetch_case
fetch_wait c batch w s =
    let (st, ms) = c.fetch s.trace batch w in fetch_case c st ms (log (waited w st) s)

-- QoreNatsSubscription::fetch
unfoldable pub fetch :
    Client → ℕ → ℤ → ℤ → Subscription → Option (Result (List MsgInfo) × Subscription)
unfolding guarded check fetch_wait poll
fetch c fuel batch timeout_ms =
    guarded c (poll (check c) (fetch_wait c batch) c.poll_interval false (ok []) fuel timeout_ms)

abbrev pub drain_failed : Status → Result (Unit {0})
drain_failed st = raise (failed subscribe_error st "failed waiting for drain completion" [])

unfoldable pub drain_case : Status → Subscription → Verdict (Unit {0}) × Subscription
drain_case Status.nats_ok s = (finish done, s)
drain_case Status.nats_timeout s = (timed_out, s)
drain_case st s = (finish (drain_failed st), s)

unfoldable pub drain_wait : Client → ℤ → Subscription → Verdict (Unit {0}) × Subscription
unfolding drain_case
drain_wait c w s =
    let st = c.wait_for_drain_completion s.trace w in drain_case st (log (waited w st) s)

-- QoreNatsSubscription::waitForDrainCompletion
unfoldable pub wait_for_drain_completion :
    Client → ℕ → ℤ → Subscription → Option (Result (Unit {0}) × Subscription)
unfolding guarded check drain_wait poll
wait_for_drain_completion c fuel timeout_ms = guarded c (
    poll (check c) (drain_wait c) c.poll_interval false (drain_failed Status.nats_timeout) fuel
      timeout_ms)
