-- ===== src/Subscription/Life.antt =====
-- The life of a subscription object: its methods in any order, then its destructor.
use module_nats.Common.{ℕ, ℤ, ◌≡◌, ◌≢◌, refl, Bool, false, Option, none, some, List, [], arith}
use module_nats.Runtime.{Result}
use module_nats.Message.{MsgInfo}
use module_nats.Subscription.Client.{Client, Subscription, create, destroy_last, destroy}
use module_nats.Subscription.Receive.{next_msg, fetch, wait_for_drain_completion}
use module_nats.Subscription.Acks.{
  ack, nak, in_progress, term, nak_with_delay, unsubscribe, auto_unsubscribe, drain,
  set_pending_limits,
}
use module_nats.Subscription.Memory.{
  Balanced, got, freed, next_msg-Balanced, fetch-Balanced, wait_for_drain_completion-Balanced,
  acknowledge-Balanced, on_subscription-Balanced,
}

-- One method call. The polling methods are given any fuel that lets them return.
pub data Step (c : Client) (s : Subscription) : Subscription → Type 0 where
  next_msgs :
      {t : Subscription} (fuel : ℕ) (timeout : ℤ) (x : Result (Option MsgInfo))
      → next_msg c fuel timeout s ≡ some (x, t)
      → Step c s t
  fetches :
      {t : Subscription} (fuel : ℕ) (batch timeout : ℤ) (x : Result (List MsgInfo))
      → fetch c fuel batch timeout s ≡ some (x, t)
      → Step c s t
  waits :
      {t : Subscription} (fuel : ℕ) (timeout : ℤ) (x : Result (Unit {0}))
      → wait_for_drain_completion c fuel timeout s ≡ some (x, t)
      → Step c s t
  acks : Step c s (ack c s).1
  naks : Step c s (nak c s).1
  in_progresses : Step c s (in_progress c s).1
  terms : Step c s (term c s).1
  naks_with_delay : (delay : ℤ) → Step c s (nak_with_delay c delay s).1
  unsubscribes : Step c s (unsubscribe c s).1
  auto_unsubscribes : (max : ℤ) → Step c s (auto_unsubscribe c max s).1
  drains : Step c s (drain c s).1
  limits : (msgs bytes : ℤ) → Step c s (set_pending_limits c msgs bytes s).1

-- The states that method calls lead to from a new object, which was created in process `pid`.
pub data Reach (c : Client) (pid : ℕ) (sub : Bool) : Subscription → Type 0 where
  created : Reach c pid sub (create pid sub [])
  later : {s t : Subscription} → Reach c pid sub s → Step c s t → Reach c pid sub t

Step-Balanced : (m : ℕ) (c : Client) {s t : Subscription} → Step c s t → Balanced m s → Balanced m t
unfolding ack nak in_progress term nak_with_delay unsubscribe auto_unsubscribe drain
    set_pending_limits
Step-Balanced m c {s} {t} (next_msgs f r x e) b = next_msg-Balanced m c f r s x t e b
Step-Balanced m c {s} {t} (fetches f n r x e) b = fetch-Balanced m c f n r s x t e b
Step-Balanced m c {s} {t} (waits f r x e) b = wait_for_drain_completion-Balanced m c f r s x t e b
Step-Balanced m c {s} acks b = acknowledge-Balanced m c _ _ _ _ _ s b
Step-Balanced m c {s} naks b = acknowledge-Balanced m c _ _ _ _ _ s b
Step-Balanced m c {s} in_progresses b = acknowledge-Balanced m c _ _ _ _ _ s b
Step-Balanced m c {s} terms b = acknowledge-Balanced m c _ _ _ _ _ s b
Step-Balanced m c {s} (naks_with_delay d) b = acknowledge-Balanced m c _ _ _ _ _ s b
Step-Balanced m c {s} unsubscribes b = on_subscription-Balanced m c _ _ _ s b
Step-Balanced m c {s} (auto_unsubscribes n) b = on_subscription-Balanced m c _ _ _ s b
Step-Balanced m c {s} drains b = on_subscription-Balanced m c _ _ _ s b
Step-Balanced m c {s} (limits n k) b = on_subscription-Balanced m c _ _ _ s b

Reach-Balanced :
    (m : ℕ) (c : Client) {p : ℕ} {sub : Bool} {s : Subscription} → Reach c p sub s → Balanced m s
unfolding got freed
Reach-Balanced m c created = refl
Reach-Balanced m c (later r st) = Step-Balanced m c st (Reach-Balanced m c r)

-- After any method calls on a new object, its destructor in the process that created it leaves no
-- message held, and each message destroyed exactly as often as the C client handed it over; the
-- subscription is destroyed too. In a forked child (another process) it does nothing.
pub destroy-Reach :
    (m pid : ℕ) (c : Client) {p : ℕ} {sub : Bool} {s : Subscription}
    → Reach c p sub s
    → (pid ≡ s.creator
        → (got m (destroy pid s).trace ≡ freed m (destroy pid s).trace)
          × ((destroy pid s).last_msg ≡ none)
          × ((destroy pid s).sub ≡ false))
      × (pid ≢ s.creator → destroy pid s ≡ s)
unfolding destroy destroy_last got freed
destroy-Reach m pid c {s} r =
    let b = Reach-Balanced m c r in
    ((λ e. (ground arith, ground arith, ground arith)), (λ n. ground arith))
