-- ===== src/Subscription/Memory.antt =====
-- Who frees the messages that a subscription receives.
use module_nats.Common.{
  ℕ, ℤ, String, ◌+◌, ◌≡◌, Bool, true, false, Option, none, some, List, [], ◌∷◌, arith, ◌==◌,
}
use module_nats.Runtime.{Status, Result, ok, raise}
use module_nats.Message.{MsgInfo}
use module_nats.Subscription.Client.{
  Event, waited, received, destroyed, Client, Subscription, log, check,
}
use module_nats.Subscription.Receive.{
  set_last_msg, next_msg_case, next_msg_wait, next_msg, destroy_list, receive_list, batch_case,
  take_batch, fetch_case, fetch_wait, fetch, drain_case, drain_wait, wait_for_drain_completion,
}
use module_nats.Subscription.Acks.{acknowledge, on_subscription}
use module_nats.Subscription.Guards.{guarded-keeps}

abbrev pub one_if : Bool → ℕ
one_if true = 1
one_if false = 0

-- How often the C client handed the message over.
unfoldable pub got : ℕ → List Event → ℕ
got m [] = 0
got m (received k ∷ t) = one_if (k == m) + got m t
got m (_ ∷ t) = got m t

-- How often the message was destroyed.
unfoldable pub freed : ℕ → List Event → ℕ
freed m [] = 0
freed m (destroyed k ∷ t) = one_if (k == m) + freed m t
freed m (_ ∷ t) = freed m t

abbrev pub held : ℕ → Option ℕ → ℕ
held m none = 0
held m (some k) = one_if (k == m)

-- How often a message stands in a batch.
pub owed : ℕ → List ℕ → ℕ
owed m [] = 0
owed m (k ∷ ks) = one_if (k == m) + owed m ks

-- Each message that was handed over is held, or was destroyed as often as it was handed over.
abbrev pub Balanced : ℕ → Subscription → Type 0
Balanced m s = got m s.trace ≡ freed m s.trace + held m s.last_msg

-- The same while a batch is in the object's hands.
abbrev Owes : ℕ → Subscription → List ℕ → Type 0
Owes m s ms = got m s.trace ≡ freed m s.trace + held m s.last_msg + owed m ms

set_last_msg_lem :
    (m k n : ℕ) (s : Subscription)
    → got m s.trace ≡ freed m s.trace + held m s.last_msg + (one_if (k == m) + n)
    → got m (set_last_msg k s).trace
      ≡ freed m (set_last_msg k s).trace + held m (set_last_msg k s).last_msg + n
unfolding set_last_msg got freed
set_last_msg_lem m k n s b = ground arith

destroy_list-Balanced :
    (m : ℕ) (ms : List ℕ) (s : Subscription) → Owes m s ms → Balanced m (destroy_list ms s)
unfolding destroy_list got freed owed
destroy_list-Balanced m [] s b = omega (arith, b)
destroy_list-Balanced m (k ∷ ks) s b =
    destroy_list-Balanced m ks (log (destroyed k) s) (ground arith)

receive_list-Owes :
    (m : ℕ) (ms done : List ℕ) (s : Subscription)
    → Owes m s done
    → got m (receive_list ms s).trace
      ≡ freed m (receive_list ms s).trace
        + held m (receive_list ms s).last_msg
        + owed m done
        + owed m ms
unfolding receive_list got freed owed
receive_list-Owes m [] done s b = omega (arith, b)
receive_list-Owes m (k ∷ ks) done s b =
    let ih = receive_list-Owes m ks (k ∷ done) (log (received k) s) (ground arith) in
    omega (arith, ih)

batch_case-Balanced :
    (m : ℕ) (rest : List MsgInfo → Subscription → Result (List MsgInfo) × Subscription)
    (ms : List ℕ) (out : List MsgInfo) (r : Result MsgInfo) (s : Subscription)
    → ((out : List MsgInfo) (s : Subscription) → Owes m s ms → Balanced m (rest out s).1)
    → Owes m s ms
    → Balanced m (batch_case rest ms out r s).1
unfolding batch_case
batch_case-Balanced m rest ms out (ok h) s ih b = ih _ s b
batch_case-Balanced m rest ms out (raise e) s ih b = destroy_list-Balanced m ms s b

take_batch-Balanced :
    (m : ℕ) (c : Client) (ms : List ℕ) (out : List MsgInfo) (s : Subscription)
    → Owes m s ms
    → Balanced m (take_batch c ms out s).1
unfolding take_batch owed
take_batch-Balanced m c [] out s b = omega (arith, b)
take_batch-Balanced m c (k ∷ ks) out s b =
    batch_case-Balanced m (take_batch c ks) ks out _ (set_last_msg k s) (take_batch-Balanced m c ks)
      (set_last_msg_lem m k (owed m ks) s (omega (arith, b)))

fetch_case-Balanced :
    (m : ℕ) (c : Client) (st : Status) (ms : List ℕ) (s : Subscription)
    → Balanced m s
    → Balanced m (fetch_case c st ms s).1
unfolding fetch_case owed
fetch_case-Balanced m c Status.nats_ok ms s b =
    take_batch-Balanced m c ms [] (receive_list ms s)
      (omega (arith, receive_list-Owes m ms [] s (omega (arith, b))))
fetch_case-Balanced m c Status.nats_timeout ms s b = b
fetch_case-Balanced m c _ ms s b = b

next_msg_case-Balanced :
    (m : ℕ) (c : Client) (st : Status) (k : ℕ) (s : Subscription)
    → Balanced m s
    → Balanced m (next_msg_case c st k s).1
unfolding next_msg_case got freed
next_msg_case-Balanced m c Status.nats_ok k s b =
    omega (arith, set_last_msg_lem m k 0 (log (received k) s) (omega (arith, b)))
next_msg_case-Balanced m c Status.nats_timeout k s b = b
next_msg_case-Balanced m c _ k s b = b

module _ (m : ℕ) (c : Client) where
  check-Balanced : (s : Subscription) → Balanced m s → Balanced m (check c s).1
  unfolding check got freed
  check-Balanced s b = b

  next_msg_wait-Balanced :
      (w : ℤ) (s : Subscription) → Balanced m s → Balanced m (next_msg_wait c w s).1
  unfolding next_msg_wait got freed
  next_msg_wait-Balanced w s b =
      let (st, k) = c.next_msg s.trace w in next_msg_case-Balanced m c st k (log (waited w st) s) b

  fetch_wait-Balanced :
      (batch w : ℤ) (s : Subscription) → Balanced m s → Balanced m (fetch_wait c batch w s).1
  unfolding fetch_wait got freed
  fetch_wait-Balanced batch w s b =
      let (st, ks) = c.fetch s.trace batch w in
      fetch_case-Balanced m c st ks (log (waited w st) s) b

  drain_case-Balanced :
      (st : Status) (s : Subscription) → Balanced m s → Balanced m (drain_case st s).1
  unfolding drain_case
  drain_case-Balanced Status.nats_ok s b = b
  drain_case-Balanced Status.nats_timeout s b = b
  drain_case-Balanced _ s b = b

  drain_wait-Balanced : (w : ℤ) (s : Subscription) → Balanced m s → Balanced m (drain_wait c w s).1
  unfolding drain_wait got freed
  drain_wait-Balanced w s b =
      let st = c.wait_for_drain_completion s.trace w in
      drain_case-Balanced st (log (waited w st) s) b

  pub next_msg-Balanced :
      (fuel : ℕ) (timeout : ℤ) (s : Subscription) (x : Result (Option MsgInfo)) (t : Subscription)
      → next_msg c fuel timeout s ≡ some (x, t)
      → Balanced m s
      → Balanced m t
  unfolding next_msg
  next_msg-Balanced fuel timeout s x t e b =
      guarded-keeps (Balanced m) c (next_msg_wait c) check-Balanced next_msg_wait-Balanced _ _ fuel
        timeout s x t b e

  pub fetch-Balanced :
      (fuel : ℕ) (batch timeout : ℤ) (s : Subscription) (x : Result (List MsgInfo))
      (t : Subscription)
      → fetch c fuel batch timeout s ≡ some (x, t)
      → Balanced m s
      → Balanced m t
  unfolding fetch
  fetch-Balanced fuel batch timeout s x t e b =
      guarded-keeps (Balanced m) c (fetch_wait c batch) check-Balanced (fetch_wait-Balanced batch) _
        _ fuel timeout s x t b e

  pub wait_for_drain_completion-Balanced :
      (fuel : ℕ) (timeout : ℤ) (s : Subscription) (x : Result (Unit {0})) (t : Subscription)
      → wait_for_drain_completion c fuel timeout s ≡ some (x, t)
      → Balanced m s
      → Balanced m t
  unfolding wait_for_drain_completion
  wait_for_drain_completion-Balanced fuel timeout s x t e b =
      guarded-keeps (Balanced m) c (drain_wait c) check-Balanced drain_wait-Balanced _ _ fuel
        timeout s x t b e

  pub acknowledge-Balanced :
      (err missing call fmt : String) (args : List ℤ) (s : Subscription)
      → Balanced m s
      → Balanced m (acknowledge c err missing call fmt args s).1
  unfolding acknowledge got freed
  acknowledge-Balanced err missing call fmt args s b = ground arith

  pub on_subscription-Balanced :
      (call fmt : String) (args : List ℤ) (s : Subscription)
      → Balanced m s
      → Balanced m (on_subscription c call fmt args s).1
  unfolding on_subscription got freed
  on_subscription-Balanced call fmt args s b = ground arith
