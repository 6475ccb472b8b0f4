-- ===== src/KeyValue/Watching.antt =====
-- How long QoreNatsKVWatcher::next waits, and how it ends.
use module_nats.Common.{
  ℕ, suc, ◌+◌, ◌-◌, ◌*◌, ◌≤◌, ◌<◌, ℤ, pos, ◌≡◌, refl, false, Option, none, some, List, [], ◌∷◌,
  Bool-cases, inl, inr, arith,
}
use module_nats.Common.Int.{pos_part}
use module_nats.Runtime.{Status, Result, ok, raise, cancelled}
use module_nats.Poll.{retry}
use module_nats.Poll.Bounds.{Metered, poll-bound}
use module_nats.Poll.Ends.{Returns, Bounded, poll-Returns}
use module_nats.KeyValue.Entry.{EntryInfo}
use module_nats.KeyValue.Client.{Event, waited, no_entry, Client, Handle, log, check}
use module_nats.KeyValue.Watcher.{next_case, next_wait, next, invalid_watcher}

-- The milliseconds of all native waits.
pub spent : List Event → ℕ
spent [] = 0
spent (waited w st ∷ t) = pos_part w + spent t
spent (_ ∷ t) = spent t

-- How often NATS_OK came without an entry.
pub empty_answers : List Event → ℕ
empty_answers [] = 0
empty_answers (no_entry ∷ t) = suc (empty_answers t)
empty_answers (_ ∷ t) = empty_answers t

mul_le : (a b k : ℕ) → a ≤ b → a * k ≤ b * k
mul_le a b k h = grind arith

mul-suc_le : (a k : ℕ) → a * k + k ≤ suc a * k
mul-suc_le a k = omega arith

module _ (c : Client) where
  next_case-spent :
      (st : Status) (e : Option ℕ) (s : Handle) → spent (next_case c st e s).1.trace ≡ spent s.trace
  unfolding next_case spent
  next_case-spent Status.nats_ok (some e) s = refl
  next_case-spent Status.nats_ok none s = refl
  next_case-spent Status.nats_timeout e s = refl
  next_case-spent _ e s = refl

  next_case-empty :
      (st : Status) (e : Option ℕ) (s : Handle)
      → empty_answers s.trace ≤ empty_answers (next_case c st e s).1.trace
  unfolding next_case empty_answers
  next_case-empty Status.nats_ok (some e) s = omega arith
  next_case-empty Status.nats_ok none s = omega arith
  next_case-empty Status.nats_timeout e s = omega arith
  next_case-empty _ e s = omega arith

  next_case-retry :
      (st : Status) (e : Option ℕ) (s : Handle)
      → (next_case c st e s).0 ≡ retry
      → empty_answers (next_case c st e s).1.trace ≡ suc (empty_answers s.trace)
  unfolding next_case empty_answers
  next_case-retry Status.nats_ok (some e) s h = cc
  next_case-retry Status.nats_ok none s h = refl
  next_case-retry Status.nats_timeout e s h = cc
  next_case-retry _ e s h = cc

  next_wait-spent :
      (w : ℤ) (s : Handle) → spent (next_wait c w s).1.trace ≡ spent s.trace + pos_part w
  unfolding next_wait spent
  next_wait-spent w s =
      let (st, e) = c.next s.trace w in omega (arith, next_case-spent st e (log (waited w st) s))

  next_wait-empty :
      (w : ℤ) (s : Handle) → empty_answers s.trace ≤ empty_answers (next_wait c w s).1.trace
  unfolding next_wait empty_answers
  next_wait-empty w s = let (st, e) = c.next s.trace w in next_case-empty st e (log (waited w st) s)

  next_wait-retry :
      (w : ℤ) (s : Handle)
      → (next_wait c w s).0 ≡ retry
      → empty_answers (next_wait c w s).1.trace ≡ suc (empty_answers s.trace)
  unfolding next_wait empty_answers
  next_wait-retry w s h =
      let (st, e) = c.next s.trace w in next_case-retry st e (log (waited w st) s) h

  metered :
      Metered
        (check c)
        (next_wait c)
        c.poll_interval
        (λ s. spent s.trace)
        (λ s. empty_answers s.trace * c.poll_interval)
  unfolding check spent empty_answers
  metered = record {
    check_spent = λ s. refl;
    check_slack = λ s. refl;
    body_spent = next_wait-spent;
    body_slack = λ w s. mul_le _ _ c.poll_interval (next_wait-empty w s);
    body_retry =
        λ w s h. rw (next_wait-retry w s h) (mul-suc_le (empty_answers s.trace) c.poll_interval);
  }

  -- A next with a timeout of `n` (at least 0) milliseconds that returns has waited `n` milliseconds
  -- at most, and one polling interval more for each NATS_OK without an entry.
  pub next-bound :
      (fuel n : ℕ) (s : Handle) (x : Result (Option EntryInfo)) (t : Handle)
      → next c fuel (pos n) s ≡ some (x, t)
      → spent t.trace + empty_answers s.trace * c.poll_interval
        ≤ spent s.trace + n + empty_answers t.trace * c.poll_interval
  unfolding next check spent empty_answers
  next-bound fuel n s x t h = ground (
    arith,
    poll-bound (check c) (next_wait c) c.poll_interval (ok none) _ _ metered fuel (pos n)
        (check c s).1 x t,
  )

  module _ (limit : ℕ) (positive : 0 < c.poll_interval)
      (few : (tr : List Event) (w : ℤ)
        → c.next tr w ≡ (Status.nats_ok, none)
        → empty_answers tr < limit) where
    next_case-few :
        (st : Status) (e : Option ℕ) (tr : List Event) (w : ℤ) (s : Handle)
        → c.next tr w ≡ (st, e)
        → (next_case c st e s).0 ≡ retry
        → empty_answers tr < limit
    unfolding next_case
    next_case-few Status.nats_ok (some e) tr w s q h = cc
    next_case-few Status.nats_ok none tr w s q h = few tr w q
    next_case-few Status.nats_timeout e tr w s q h = cc
    next_case-few _ e tr w s q h = cc

    bounded : Bounded (check c) (next_wait c) false (λ s. limit - empty_answers s.trace)
    unfolding check next_wait empty_answers
    bounded = record {
      check_le = λ s. omega arith;
      body_le = λ w s. omega (arith, next_wait-empty w s);
      body_retry = λ w s h.
          let (st, e) = c.next s.trace w in
          omega (
            arith,
            next_wait-retry w s h,
            next_case-few st e s.trace w (log (waited w st) s) refl h,
          );
      body_endless = λ w s h. cc;
    }

    -- If the C client answers NATS_OK without an entry at most `limit` times, a next with a timeout
    -- of `n` (at least 0) milliseconds returns, on any fuel above `n + limit`.
    pub next-Returns :
        (fuel n : ℕ) (s : Handle) → n + limit < fuel → Returns (next c fuel (pos n) s)
    unfolding next check
    next-Returns fuel n s h =
        let (v, e) =
          poll-Returns (check c) (next_wait c) c.poll_interval (ok none) false _ bounded positive
            fuel (pos n) (check c s).1 (omega arith) in
        elim (Bool-cases s.is_set) [
          | inr off ↦ ((invalid_watcher, s), ground arith)
          | inl on ↦ elim (Bool-cases (c.check_cancel s.trace)) [
            | inl stop ↦ ((raise cancelled, (check c s).1), ground arith)
            | inr go ↦ (v, ground arith)
          ]
        ]
