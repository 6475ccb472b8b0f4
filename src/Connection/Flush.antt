-- ===== src/Connection/Flush.antt =====
-- How long a flush waits, and how it ends.
use module_nats.Common.{
  ℕ, ◌+◌, ◌≤◌, ◌<◌, ℤ, pos, ◌≡◌, ◌≢◌, refl, false, some, List, [], ◌∷◌, Bool-cases, inl, inr, arith,
}
use module_nats.Common.Int.{pos_part}
use module_nats.Runtime.{Status, Result, raise, cancelled}
use module_nats.Poll.{retry}
use module_nats.Poll.Bounds.{Metered, poll-bound}
use module_nats.Poll.Ends.{Returns, Bounded, poll-Returns}
use module_nats.Connection.Client.{Event, waited, Client, Connection, log, check, not_connected}
use module_nats.Connection.Calls.{flush_case, flush_wait, flush, flush_failed, connection_error}

-- The milliseconds of all native flushes.
pub spent : List Event → ℕ
spent [] = 0
spent (waited w st ∷ t) = pos_part w + spent t
spent (_ ∷ t) = spent t

flush_case-same : (st : Status) (s : Connection) → (flush_case st s).1 ≡ s
unfolding flush_case
flush_case-same Status.nats_ok s = refl
flush_case-same Status.nats_timeout s = refl
flush_case-same _ s = refl

flush_case-ne-retry : (st : Status) (s : Connection) → (flush_case st s).0 ≢ retry
unfolding flush_case
flush_case-ne-retry Status.nats_ok s e = cc
flush_case-ne-retry Status.nats_timeout s e = cc
flush_case-ne-retry _ s e = cc

module _ (c : Client) where
  flush_wait-spent :
      (w : ℤ) (s : Connection) → spent (flush_wait c w s).1.trace ≡ spent s.trace + pos_part w
  unfolding flush_wait spent
  flush_wait-spent w s =
      let st = c.flush_timeout s.trace w in
      rw (flush_case-same st (log (waited w st) s)) (omega arith)

  flush_wait-ne-retry : (w : ℤ) (s : Connection) → (flush_wait c w s).0 ≢ retry
  unfolding flush_wait
  flush_wait-ne-retry w s = flush_case-ne-retry _ _

  metered : Metered (check c) (flush_wait c) c.poll_interval (λ s. spent s.trace) (λ _. 0)
  unfolding check spent
  metered = record {
    check_spent = λ s. refl;
    check_slack = λ s. refl;
    body_spent = flush_wait-spent;
    body_slack = λ w s. omega arith;
    body_retry = λ w s h. absurd (flush_wait-ne-retry w s h);
  }

  bounded : Bounded (check c) (flush_wait c) false (λ _. 0)
  bounded = record {
    check_le = λ s. omega arith;
    body_le = λ w s. omega arith;
    body_retry = λ w s h. absurd (flush_wait-ne-retry w s h);
    body_endless = λ w s h. cc;
  }

  flush-bound :
      (fuel n : ℕ) (s : Connection) (x : Result (Unit {0})) (t : Connection)
      → flush c fuel (pos n) s ≡ some (x, t)
      → spent t.trace ≤ spent s.trace + n
  unfolding flush check spent
  flush-bound fuel n s x t h = ground (
    arith,
    poll-bound (check c) (flush_wait c) c.poll_interval (flush_failed Status.nats_timeout) _ _
        metered fuel (pos n) (check c s).1 x t,
  )

  flush-ends :
      (fuel n : ℕ) (s : Connection)
      → 0 < c.poll_interval
      → n < fuel
      → Returns (flush c fuel (pos n) s)
  unfolding flush check
  flush-ends fuel n s positive h =
      let (v, e) =
        poll-Returns (check c) (flush_wait c) c.poll_interval (flush_failed Status.nats_timeout)
          false _ bounded positive fuel (pos n) (check c s).1 (omega arith) in
      elim (Bool-cases s.is_set) [
        | inr off ↦ ((not_connected connection_error, s), ground arith)
        | inl on ↦ elim (Bool-cases (c.check_cancel s.trace)) [
          | inl stop ↦ ((raise cancelled, (check c s).1), ground arith)
          | inr go ↦ (v, ground arith)
        ]
      ]

-- With a positive polling interval, a flush with a timeout of `n` (at least 0) milliseconds returns,
-- on any fuel above `n`, and has waited `n` milliseconds at most, whatever the C client answers.
pub flush-Within :
    (c : Client) (fuel n : ℕ) (s : Connection)
    → 0 < c.poll_interval
    → n < fuel
    → (v : Result (Unit {0}) × Connection) × (flush c fuel (pos n) s ≡ some v)
      × (spent v.1.trace ≤ spent s.trace + n)
flush-Within c fuel n s p h =
    let (v, e) = flush-ends c fuel n s p h in (v, e, flush-bound c fuel n s v.0 v.1 e)
