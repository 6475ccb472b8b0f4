-- ===== src/Subscription/Acks.antt =====
-- ack, nak, inProgress, term, nakWithDelay: acknowledgements of the last message; and unsubscribe,
-- autoUnsubscribe, drain, setPendingLimits.
use module_nats.Common.{ℤ, String, none, some, List, [], ◌∷◌, if◌then◌else◌}
use module_nats.Common.Int.{times}
use module_nats.Runtime.{Result, raise, raised, or_failed}
use module_nats.Subscription.Client.{Client, Subscription, called, log, subscribe_error, invalid}

abbrev pub jetstream_error : String
jetstream_error = "NATS-JETSTREAM-ERROR"

-- An acknowledgement of the last message by the named call of the C client.
unfoldable pub acknowledge :
    Client
    → String
    → String
    → String
    → String
    → List ℤ
    → Subscription
    → Result (Unit {0}) × Subscription
unfolding or_failed
acknowledge c err missing call fmt args s = elim s.last_msg [
  | none ↦ (raise (raised err missing []), s)
  | some m ↦
      let st = c.call_status s.trace call args in
      (or_failed st err fmt [] tt, log (called call (some m) st) s)
]

unfoldable pub ack : Client → Subscription → Result (Unit {0}) × Subscription
unfolding acknowledge
ack c =
    acknowledge c jetstream_error "no message to acknowledge" "natsMsg_Ack"
      "failed to acknowledge message" []

unfoldable pub nak : Client → Subscription → Result (Unit {0}) × Subscription
unfolding acknowledge
nak c =
    acknowledge c jetstream_error "no message to negative-acknowledge" "natsMsg_Nak"
      "failed to negative-acknowledge message" []

unfoldable pub in_progress : Client → Subscription → Result (Unit {0}) × Subscription
unfolding acknowledge
in_progress c =
    acknowledge c jetstream_error "no message to mark as in-progress" "natsMsg_InProgress"
      "failed to mark message as in-progress" []

unfoldable pub term : Client → Subscription → Result (Unit {0}) × Subscription
unfolding acknowledge
term c =
    acknowledge c jetstream_error "no message to terminate" "natsMsg_Term"
      "failed to terminate message delivery" []

-- The delay is handed on in nanoseconds.
unfoldable pub nak_with_delay : Client → ℤ → Subscription → Result (Unit {0}) × Subscription
unfolding acknowledge
nak_with_delay c delay_ms =
    acknowledge c subscribe_error "no message to negative-acknowledge with delay"
      "natsMsg_NakWithDelay" "failed to negative-acknowledge message with delay"
      (times delay_ms 1000000 ∷ [])

-- A call on the subscription that reports a status alone.
unfoldable pub on_subscription :
    Client → String → String → List ℤ → Subscription → Result (Unit {0}) × Subscription
unfolding or_failed
on_subscription c call fmt args s =
    if s.sub
    then (let st = c.call_status s.trace call args in
        (or_failed st subscribe_error fmt [] tt, log (called call none st) s))
    else (invalid, s)

unfoldable pub unsubscribe : Client → Subscription → Result (Unit {0}) × Subscription
unfolding on_subscription
unsubscribe c = on_subscription c "natsSubscription_Unsubscribe" "failed to unsubscribe" []

unfoldable pub auto_unsubscribe : Client → ℤ → Subscription → Result (Unit {0}) × Subscription
unfolding on_subscription
auto_unsubscribe c max =
    on_subscription c "natsSubscription_AutoUnsubscribe" "failed to auto-unsubscribe" (max ∷ [])

unfoldable pub drain : Client → Subscription → Result (Unit {0}) × Subscription
unfolding on_subscription
drain c = on_subscription c "natsSubscription_Drain" "failed to drain subscription" []

unfoldable pub set_pending_limits : Client → ℤ → ℤ → Subscription → Result (Unit {0}) × Subscription
unfolding on_subscription
set_pending_limits c msg_limit bytes_limit =
    on_subscription c "natsSubscription_SetPendingLimits" "failed to set pending limits"
      (msg_limit ∷ bytes_limit ∷ [])
