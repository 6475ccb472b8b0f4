-- ===== src/Subscription/Ends.antt =====
-- How the polling methods of a subscription end.
use module_nats.Common.{
  ℕ, ℤ, pos, ◌<◌, ◌≢◌, sym, subst, false, none, List, Bool-cases, inl, inr, arith,
}
use module_nats.Common.Int.{pos_part}
use module_nats.Runtime.{Status, Result, ok, raise, cancelled}
use module_nats.Poll.{Verdict, retry, poll}
use module_nats.Poll.Ends.{Returns, Bounded, poll-Returns}
use module_nats.Subscription.Client.{Client, Subscription, check, invalid}
use module_nats.Subscription.Receive.{
  guarded, next_msg_case, next_msg_wait, next_msg, fetch_case, fetch_wait, fetch, drain_case,
  drain_wait, wait_for_drain_completion,
}
use module_nats.Subscription.Waits.{not_endless}

-- A polling method whose native wait always counts returns on more fuel than the timeout has
-- milliseconds.
module _ {ℓ} {A : Type ℓ} (c : Client) (body : ℤ → Subscription → Verdict A × Subscription)
    (positive : 0 < c.poll_interval)
    (goes_on : (w : ℤ) (s : Subscription) → (body w s).0 ≢ retry) where
  guarded-Returns :
      (expired : Result A) (fuel : ℕ) (r : ℤ) (s : Subscription)
      → pos_part r < fuel
      → Returns (guarded c (poll (check c) body c.poll_interval false expired fuel r) s)
  unfolding guarded check
  guarded-Returns expired fuel r s h =
      let (v, e) =
        poll-Returns (check c) body c.poll_interval expired false (λ _. 0) bounded positive fuel r
          (check c s).1 (omega arith) in
      elim (Bool-cases s.sub) [
        | inr off ↦ ((invalid, s), ground arith)
        | inl on ↦ elim (Bool-cases (c.check_cancel s.trace)) [
          | inl stop ↦ ((raise cancelled, (check c s).1), ground arith)
          | inr go ↦ (v, ground arith)
        ]
      ]
    where
      bounded : Bounded (check c) body false (λ _. 0)
      bounded = record {
        check_le = λ s. omega arith;
        body_le = λ w s. omega arith;
        body_retry = λ w s e. absurd (goes_on w s e);
        body_endless = λ w s e. cc;
      }

next_msg_case-ne-retry :
    (c : Client) (st : Status) (m : ℕ) (s : Subscription) → (next_msg_case c st m s).0 ≢ retry
unfolding next_msg_case
next_msg_case-ne-retry c Status.nats_ok m s e = cc
next_msg_case-ne-retry c Status.nats_timeout m s e = cc
next_msg_case-ne-retry c _ m s e = cc

fetch_case-ne-retry :
    (c : Client) (st : Status) (ms : List ℕ) (s : Subscription) → (fetch_case c st ms s).0 ≢ retry
unfolding fetch_case
fetch_case-ne-retry c Status.nats_ok ms s e = cc
fetch_case-ne-retry c Status.nats_timeout ms s e = cc
fetch_case-ne-retry c _ ms s e = cc

drain_case-ne-retry : (st : Status) (s : Subscription) → (drain_case st s).0 ≢ retry
unfolding drain_case
drain_case-ne-retry Status.nats_ok s e = cc
drain_case-ne-retry Status.nats_timeout s e = cc
drain_case-ne-retry _ s e = cc

-- For every C client and a positive polling interval, nextMsg with a timeout of `n` (at least 0)
-- milliseconds, fetch and waitForDrainCompletion return, on any fuel above the timeout.
pub polling_methods-Returns :
    (c : Client) (fuel n : ℕ) (batch : ℤ) (s : Subscription)
    → 0 < c.poll_interval
    → n < fuel
    → Returns (next_msg c fuel (pos n) s)
      × Returns (fetch c fuel batch (pos n) s)
      × Returns (wait_for_drain_completion c fuel (pos n) s)
unfolding next_msg fetch wait_for_drain_completion next_msg_wait fetch_wait drain_wait
polling_methods-Returns c fuel n batch s p h = (
  subst
      (λ b.
        Returns
          (guarded c (poll (check c) (next_msg_wait c) c.poll_interval b (ok none) fuel (pos n)) s))
      (sym (not_endless n))
      (guarded-Returns c (next_msg_wait c) p (λ w s. next_msg_case-ne-retry c _ _ _) _ fuel (pos n)
        s h),
  guarded-Returns c (fetch_wait c batch) p (λ w s. fetch_case-ne-retry c _ _ _) _ fuel (pos n) s h,
  guarded-Returns c (drain_wait c) p (λ w s. drain_case-ne-retry _ _) _ fuel (pos n) s h,
)
