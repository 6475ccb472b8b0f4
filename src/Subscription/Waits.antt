-- ===== src/Subscription/Waits.antt =====
-- How long nextMsg and waitForDrainCompletion wait, and what their answers mean.
use module_nats.Common.{
  ℕ, ℤ, pos, ◌+◌, ◌≤◌, ◌≡◌, refl, subst, false, Option, none, some, ◌⊎◌, inl, inr, arith,
}
use module_nats.Common.Int.{ltb_ℤ}
use module_nats.Runtime.{Status, Result, ok, raise, done}
use module_nats.Message.{MsgInfo}
use module_nats.Poll.{effective, poll}
use module_nats.Poll.Ensures.{Leaves, Rounds}
use module_nats.Subscription.Client.{waited, received, Client, Subscription, log, check}
use module_nats.Subscription.Receive.{
  guarded, set_last_msg, returned, next_msg_case, next_msg_wait, next_msg, drain_case, drain_wait,
  drain_failed, wait_for_drain_completion,
}
use module_nats.Subscription.Guards.{guarded-ensures}
use module_nats.Subscription.Left.{
  spent, LastWait, Left, after_wait, over, more, within, check-Left, Left-le, set_last_msg-spent,
}

-- What nextMsg may return within `n` milliseconds, and what its `nothing` means.
pub record Answered (n : ℕ) (s : Subscription) (x : Result (Option MsgInfo)) (t : Subscription)
    : Type 0 where
  pub within : spent t.trace ≤ spent s.trace + n
  pub nothing :
      x ≡ ok none
      → (spent t.trace ≡ spent s.trace + n)
        ⊎ LastWait Status.nats_max_delivered_msgs t.trace
        ⊎ LastWait Status.nats_invalid_subscription t.trace

returned-ne-nothing : (r : Result MsgInfo) → returned r ≡ ok none → ⊥
unfolding returned
returned-ne-nothing (ok h) e = cc
returned-ne-nothing (raise x) e = cc

stored-spent :
    (m : ℕ) (s : Subscription) → spent (set_last_msg m (log (received m) s)).trace ≡ spent s.trace
unfolding spent
stored-spent m s = set_last_msg-spent m (log (received m) s)

next_msg_case-Leaves :
    (n : ℕ) (s : Subscription) (c : Client) (r : ℤ) (t : Subscription) (st : Status) (m : ℕ)
    → Left n s r t
    → let w = effective c.poll_interval false r in
      let v = next_msg_case c st m (log (waited w st) t) in
      Leaves (Left n s) (Answered n s) false (ok none) r w v.0 v.1
unfolding next_msg_case
next_msg_case-Leaves n s c r t Status.nats_ok m l = record {
  within = omega (
    arith,
    within n s c.poll_interval r t Status.nats_ok l,
    stored-spent m (after_wait n s c.poll_interval r t Status.nats_ok l),
  );
  nothing = λ e. absurd (returned-ne-nothing _ e);
}
next_msg_case-Leaves n s c r t Status.nats_timeout m l = (
  (λ i. cc),
  (λ _ h. record {
    within = within n s c.poll_interval r t Status.nats_timeout l;
    nothing = λ _. inl (over n s c.poll_interval r t Status.nats_timeout l h);
  }),
  (λ _ h. more n s c.poll_interval r t Status.nats_timeout l h),
)
next_msg_case-Leaves n s c r t Status.nats_max_delivered_msgs m l = record {
  within = within n s c.poll_interval r t Status.nats_max_delivered_msgs l;
  nothing = λ _. inr (inl (_, _, refl));
}
next_msg_case-Leaves n s c r t Status.nats_invalid_subscription m l = record {
  within = within n s c.poll_interval r t Status.nats_invalid_subscription l;
  nothing = λ _. inr (inr (_, _, refl));
}
next_msg_case-Leaves n s c r t st m l = record {
  within = within n s c.poll_interval r t st l;
  nothing = λ e. cc;
}

pub not_endless : (n : ℕ) → ltb_ℤ (pos n) (pos 0) ≡ false
not_endless n = ground arith

-- A nextMsg with a timeout of `n` (at least 0) milliseconds that returns has waited `n` milliseconds
-- at most, whatever the C client answers; and where it returns nothing it has waited exactly `n`
-- milliseconds, or its last wait said that the subscription has ended.
pub next_msg-Answered :
    (c : Client) (fuel n : ℕ) (s : Subscription) (x : Result (Option MsgInfo)) (t : Subscription)
    → next_msg c fuel (pos n) s ≡ some (x, t)
    → Answered n s x t
unfolding next_msg next_msg_wait
next_msg-Answered c fuel n s x t e =
    guarded-ensures (Left n s) (Answered n s) c (next_msg_wait c) false (ok none) rounds fuel
      (pos n) s x t (record { sign = refl; sum = refl })
      (λ _. record { within = omega arith; nothing = λ e. cc })
      (subst
        (λ b.
          guarded c (poll (check c) (next_msg_wait c) c.poll_interval b (ok none) fuel (pos n)) s
          ≡ some (x, t))
        (not_endless n) e)
  where
    rounds :
        Rounds (Left n s) (Answered n s) (check c) (next_msg_wait c) c.poll_interval false (ok none)
    rounds = record {
      check_keeps = check-Left n c s;
      check_stops = λ r t l _. record {
        within = Left-le n s r (check c t).1 (check-Left n c s r t l);
        nothing = λ e. cc;
      };
      body_leaves = λ r t l.
          let (st, m) = c.next_msg t.trace (effective c.poll_interval false r) in
          next_msg_case-Leaves n s c r t st m l;
    }

-- waitForDrainCompletion waits `n` milliseconds at most, and exactly `n` where it reports a timeout.
pub record Drained (n : ℕ) (s : Subscription) (x : Result (Unit {0})) (t : Subscription)
    : Type 0 where
  pub within : spent t.trace ≤ spent s.trace + n
  pub timeout : x ≡ drain_failed Status.nats_timeout → spent t.trace ≡ spent s.trace + n
  pub success : x ≡ done → LastWait Status.nats_ok t.trace

drain_case-Leaves :
    (n : ℕ) (s : Subscription) (interval : ℕ) (r : ℤ) (t : Subscription) (st : Status)
    → Left n s r t
    → let w = effective interval false r in
      let v = drain_case st (log (waited w st) t) in
      Leaves (Left n s) (Drained n s) false (drain_failed Status.nats_timeout) r w v.0 v.1
unfolding drain_case
drain_case-Leaves n s i r t Status.nats_ok l = record {
  within = within n s i r t Status.nats_ok l;
  timeout = λ e. cc;
  success = λ _. (_, _, refl);
}
drain_case-Leaves n s i r t Status.nats_timeout l = (
  (λ i. cc),
  (λ _ h. record {
    within = within n s i r t Status.nats_timeout l;
    timeout = λ _. over n s i r t Status.nats_timeout l h;
    success = λ e. cc;
  }),
  (λ _ h. more n s i r t Status.nats_timeout l h),
)
drain_case-Leaves n s i r t st l = record {
  within = within n s i r t st l;
  timeout = λ e. cc;
  success = λ e. cc;
}

-- A waitForDrainCompletion with a timeout of `n` (at least 0) milliseconds that returns has waited
-- `n` milliseconds at most; a reported timeout means exactly `n`, and success means that its last
-- wait was answered by NATS_OK.
pub wait_for_drain_completion-Drained :
    (c : Client) (fuel n : ℕ) (s : Subscription) (x : Result (Unit {0})) (t : Subscription)
    → wait_for_drain_completion c fuel (pos n) s ≡ some (x, t)
    → Drained n s x t
unfolding wait_for_drain_completion drain_wait
wait_for_drain_completion-Drained c fuel n s x t e =
    guarded-ensures (Left n s) (Drained n s) c (drain_wait c) false _ rounds fuel (pos n) s x t
      (record { sign = refl; sum = refl })
      (λ _. record { within = omega arith; timeout = λ e. cc; success = λ e. cc }) e
  where
    rounds :
        Rounds
          (Left n s)
          (Drained n s)
          (check c)
          (drain_wait c)
          c.poll_interval
          false
          (drain_failed Status.nats_timeout)
    rounds = record {
      check_keeps = check-Left n c s;
      check_stops = λ r t l _. record {
        within = Left-le n s r (check c t).1 (check-Left n c s r t l);
        timeout = λ e. cc;
        success = λ e. cc;
      };
      body_leaves = λ r t l.
          let w = effective c.poll_interval false r in
          drain_case-Leaves n s c.poll_interval r t (c.wait_for_drain_completion t.trace w) l;
    }
