-- ===== src/Connection/Forked.antt =====
-- A connection in a forked child, whose close abandons it: publish, publishMsg, subscribe,
-- queueSubscribe, drain, reconnect, flush, isConnected and close (src/QoreNatsConnection.cpp).
use module_nats.Common.{
  ℕ, ℤ, String, List, ◌≡◌, ◌≢◌, refl, ap, sym, subst, ◌∙◌, false, Option, some, arith,
}
use module_nats.Value.{Fields}
use module_nats.Runtime.{Result}
use module_nats.Connection.Client.{Client, Connection, not_connected}
use module_nats.Connection.Calls.{
  guarded, connected, publish, publish_msg, subscribe, queue_subscribe, drain, reconnect, close,
  is_connected, flush, publish_error, connection_error,
}

-- What each method answers on an abandoned connection: an error, with no call of the C client.
pub record Abandoned (c : Client) (s : Connection) : Type 0 where
  pub publishes :
      (subject : String) (payload : List ℕ)
      → publish c subject payload s ≡ (not_connected publish_error, s)
  pub publishes_msg :
      (subject : String) (payload : List ℕ) (headers : Option Fields)
      → publish_msg c subject payload headers s ≡ (not_connected publish_error, s)
  pub subscribes :
      (pid : ℕ) (subject : String)
      → subscribe c pid subject s ≡ (not_connected "NATS-SUBSCRIBE-ERROR", s)
  pub queue_subscribes :
      (pid : ℕ) (subject queue : String)
      → queue_subscribe c pid subject queue s ≡ (not_connected "NATS-SUBSCRIBE-ERROR", s)
  pub drains : drain c s ≡ (not_connected connection_error, s)
  pub reconnects : reconnect c s ≡ (not_connected connection_error, s)
  pub flushes :
      (fuel : ℕ) (timeout_ms : ℤ)
      → flush c fuel timeout_ms s ≡ some (not_connected connection_error, s)
  pub connected : is_connected c s ≡ false

-- One call of a method in the process `pid`, with any answers of the C client.
pub data Call (pid : ℕ) (s : Connection) : Connection → Type 0 where
  publishes :
      (c : Client) (subject : String) (payload : List ℕ)
      → Call pid s (publish c subject payload s).1
  publishes_msg :
      (c : Client) (subject : String) (payload : List ℕ) (headers : Option Fields)
      → Call pid s (publish_msg c subject payload headers s).1
  subscribes : (c : Client) (subject : String) → Call pid s (subscribe c pid subject s).1
  queue_subscribes :
      (c : Client) (subject queue : String) → Call pid s (queue_subscribe c pid subject queue s).1
  drains : (c : Client) → Call pid s (drain c s).1
  reconnects : (c : Client) → Call pid s (reconnect c s).1
  flushes :
      (c : Client) (fuel : ℕ) (timeout_ms : ℤ) (r : Result (Unit {0})) (t : Connection)
      → flush c fuel timeout_ms s ≡ some (r, t)
      → Call pid s t
  closes : (c : Client) → Call pid s (close c pid s)

-- The calls of one process, from a state on.
pub data Calls (pid : ℕ) (s : Connection) : Connection → Type 0 where
  none_yet : Calls pid s s
  then_one : {t u : Connection} → Calls pid s t → Call pid t u → Calls pid s u

abandoned : (c : Client) (s : Connection) → s.is_set ≡ false → Abandoned c s
unfolding guarded connected publish publish_msg subscribe queue_subscribe drain reconnect
    is_connected flush
abandoned c s off = record {
  publishes = λ a b. rw off;
  publishes_msg = λ a b h. rw off;
  subscribes = λ p a. rw off;
  queue_subscribes = λ p a q. rw off;
  drains = rw off;
  reconnects = rw off;
  flushes = λ f n. rw off;
  connected = rw off;
}

close_forked :
    (c : Client) (pid : ℕ) (s : Connection)
    → pid ≢ s.creator
    → close c pid s ≡ record s { is_set = false }
unfolding close
close_forked c pid s n = ground arith

flush_off :
    (c : Client) (fuel : ℕ) (timeout_ms : ℤ) (r : Result (Unit {0})) (s t : Connection)
    → s.is_set ≡ false
    → flush c fuel timeout_ms s ≡ some (r, t)
    → t ≡ s
unfolding flush
flush_off c fuel timeout_ms r s t off e = ground arith

-- On an abandoned connection, in another process, a call changes nothing.
Call-same : {pid : ℕ} {s t : Connection} → pid ≢ s.creator → s.is_set ≡ false → Call pid s t → t ≡ s
unfolding guarded connected publish publish_msg subscribe queue_subscribe drain reconnect
Call-same n off (publishes c subject payload) = rw off
Call-same n off (publishes_msg c subject payload headers) = rw off
Call-same n off (subscribes c subject) = rw off
Call-same n off (queue_subscribes c subject queue) = rw off
Call-same n off (drains c) = rw off
Call-same n off (reconnects c) = rw off
Call-same {s} {t} n off (flushes c fuel timeout_ms r u e) = flush_off c fuel timeout_ms r s t off e
Call-same {pid} {s} n off (closes c) =
    close_forked c pid s n ∙ (λ i. record s { is_set = sym off i })

Calls-same :
    {pid : ℕ} {s t : Connection} → pid ≢ s.creator → s.is_set ≡ false → Calls pid s t → t ≡ s
Calls-same n off none_yet = refl
Calls-same {pid} n off (then_one r q) =
    let e = Calls-same n off r in
    Call-same (subst (λ t. pid ≢ t.creator) (sym e) n) (ap (λ t. t.is_set) e ∙ off) q ∙ e

-- In another process than the one that created the connection, after close and any further calls of
-- publish, publishMsg, subscribe, queueSubscribe, drain, reconnect, flush and close in that process, no
-- call has reached the C client; and then each of these methods but close still reports that the
-- connection is not connected, and isConnected answers false, without a call of the C client.
pub close-Abandoned :
    {pid : ℕ} {t : Connection} (c d : Client) (s : Connection)
    → pid ≢ s.creator
    → Calls pid (close c pid s) t
    → (t.trace ≡ s.trace) × Abandoned d t
close-Abandoned {pid} {t} c d s n r =
    let shut = record s { is_set = false } in
    let e = Calls-same n refl (subst (λ u. Calls pid u t) (close_forked c pid s n) r) in
    (ap (λ u. u.trace) e, abandoned d t (ap (λ u. u.is_set) e))
