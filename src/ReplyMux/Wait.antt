-- ===== src/ReplyMux/Wait.antt =====
-- The wait of request for its reply (src/QoreNatsConnection.cpp, from `auto deadline` on), with the
-- steady clock in nanoseconds and the microseconds and milliseconds that the code computes from it.
use module_nats.Common.{
  ℕ, zero, suc, ◌+◌, ◌-◌, ◌*◌, ◌/◌, ◌%◌, ◌^◌, ◌≤◌, ◌<◌, ◌≡◌, refl, subst, Option, none, some,
  Option-cases, Bool-cases, inl, inr, arith, Bool, true, false, ◌==◌, if◌then◌else◌, ℤ,
}
use module_nats.Common.Int.{pos_part, int64}

-- How the wait ends: with the reply taken from the slot, with NATS-TIMEOUT-ERROR, or interrupted.
pub data Outcome : Type 0 where
  replied : ℕ → Outcome
  expired : Outcome
  interrupted : Outcome

-- The state `t` of the connection, the clock and the other threads. Waiting on the condition variable
-- lets the others run: `wait` tells whether the wait was interrupted.
pub record Clock {ℓ} (t : Type ℓ) : Type ℓ where
  pub now : t → ℕ
  pub slot : t → Option ℕ
  pub clear : t → t
  pub wait : ℕ → t → Bool × t

-- duration_cast of `deadline - now` to microseconds, with the difference in 64 bits; a negative one and
-- 0 are both `<= 0`
unfoldable pub remaining : ℕ → ℕ → ℕ
unfolding int64
remaining deadline at = pos_part (int64 (deadline + (2 ^ 64 - at % 2 ^ 64))) / 1000

unfoldable pub wait_ms : ℕ → ℕ
wait_ms left = (left + 999) / 1000

-- `now + milliseconds(timeout_ms > 0 ? timeout_ms : 0)`, as the 64 bits of the clock's nanoseconds
unfoldable pub deadline_of : ℤ → ℕ → ℕ
deadline_of timeout_ms at = (at + pos_part timeout_ms * 1000000) % 2 ^ 64

-- As long as both times are below 2^63, the difference is exact.
remaining-exact :
    (deadline at : ℕ)
    → deadline < 2 ^ 63
    → at < 2 ^ 63
    → remaining deadline at ≡ (deadline - at) / 1000
unfolding remaining int64
remaining-exact deadline at h k = ground arith

wait-less : (a b d : ℕ) → a < b → a < d → d - b < d - a
wait-less a b d h k = omega arith

wait_late :
    (a b d late : ℕ)
    → b ≤ a + ((d - a) / 1000 + 999) / 1000 * 1000000 + late
    → a ≤ d
    → b ≤ d + 999000 + late
wait_late a b d late h k = omega arith

late-exact :
    (b a d late : ℕ)
    → remaining d a ≡ (d - a) / 1000
    → b ≤ a + (remaining d a + 999) / 1000 * 1000000 + late
    → a ≤ d
    → b ≤ d + 999000 + late
late-exact b a d late f h k =
    wait_late a b d late (subst (λ q. b ≤ a + (q + 999) / 1000 * 1000000 + late) f h) k

module _ {ℓ} {t : Type ℓ} (c : Clock t) where
  abbrev waited : (t → Option (Outcome × t)) → Bool × t → Option (Outcome × t)
  waited again (true, y) = some (interrupted, y)
  waited again (false, y) = again y

  -- one round of the loop, with the rest of the loop as `again`
  unfoldable round : ℕ → (t → Option (Outcome × t)) → t → Option (Outcome × t)
  unfolding remaining wait_ms
  round deadline again x = elim (c.slot x) [
    | some m ↦ some (replied m, c.clear x)
    | none ↦
        if remaining deadline (c.now x) == 0
        then some (expired, x)
        else waited again (c.wait (wait_ms (remaining deadline (c.now x))) x)
  ]

  unfoldable rounds : ℕ → ℕ → t → Option (Outcome × t)
  unfolding round
  rounds zero deadline x = none
  rounds (suc n) deadline x = round deadline (rounds n deadline) x

  -- The fuel is one round for each nanosecond of the timeout, and one.
  unfoldable pub wait_for_reply : ℤ → t → Option (Outcome × t)
  unfolding rounds deadline_of
  wait_for_reply timeout_ms x =
      rounds (suc (pos_part timeout_ms * 1000000)) (deadline_of timeout_ms (c.now x)) x

  -- A wait takes time, and ends at most `late` nanoseconds after its own timeout.
  unfoldable pub Timely : ℕ → Type ℓ
  Timely late =
      (ms : ℕ) (x : t)
      → (c.now x < c.now (c.wait ms x).1) × (c.now (c.wait ms x).1 ≤ c.now x + ms * 1000000 + late)

  -- What an outcome says of the state it was reached in: a reply was in the slot, which is empty now;
  -- or there is none, and the clock is less than a microsecond before the deadline, at the earliest,
  -- and less than a millisecond and `late` behind it, at the latest; or a wait was interrupted.
  pub data Sound (deadline late : ℕ) : Outcome × t → Type ℓ where
    got : (m : ℕ) (y : t) → c.slot y ≡ some m → Sound deadline late (replied m, c.clear y)
    gave_up :
        (x : t)
        → c.slot x ≡ none
        → deadline < c.now x + 1000
        → c.now x ≤ deadline + 999000 + late
        → Sound deadline late (expired, x)
    stopped : (ms : ℕ) (y x : t) → c.wait ms y ≡ (true, x) → Sound deadline late (interrupted, x)

  module _ (deadline late : ℕ) (timely : Timely late)
      (fits : deadline + 999000 + late < 2 ^ 63) where
    Ended : Option (Outcome × t) → Type ℓ
    Ended r = (v : Outcome × t) × (r ≡ some v) × Sound deadline late v

    waited-Ended :
        (again : t → Option (Outcome × t)) (ms : ℕ) (x : t)
        → (r : Bool × t) → c.wait ms x ≡ r
        → Ended (again r.1)
        → Ended (waited again r)
    unfolding Ended
    waited-Ended again ms x (true, y) e h = ((interrupted, y), refl, stopped ms x y e)
    waited-Ended again ms x (false, y) e h = h

    round-Ended :
        (again : t → Option (Outcome × t)) (x : t)
        → c.now x ≤ deadline + 999000 + late
        → ((y : t)
            → deadline - c.now y < deadline - c.now x
            → c.now y ≤ deadline + 999000 + late
            → Ended (again y))
        → Ended (round deadline again x)
    unfolding Ended round Timely wait_ms
    round-Ended again x h ih =
        let f = remaining-exact deadline (c.now x) (omega (arith, fits)) (omega (arith, fits, h)) in
        elim (Option-cases (c.slot x)) [
          | inr (m, q) ↦ rw (q, round) ((replied m, c.clear x), refl, got m x q)
          | inl q ↦ elim (Bool-cases (remaining deadline (c.now x) == 0)) [
            | inl out ↦ rw (q, round, out) ((expired, x), refl, gave_up x q (ground (arith, f)) h)
            | inr left ↦
                rw (q, round, left)
                  (waited-Ended again (wait_ms (remaining deadline (c.now x))) x _ refl (
                    ih _ (wait-less _ _ _ (timely _ x).0 (ground (arith, f)))
                      (late-exact _ _ _ late f (timely _ x).1 (ground (arith, f)))))
          ]
        ]

    rounds-Ended :
        (n : ℕ) (x : t)
        → deadline - c.now x < n
        → c.now x ≤ deadline + 999000 + late
        → Ended (rounds n deadline x)
    unfolding rounds
    rounds-Ended zero x f h = elim f [ ]
    rounds-Ended (suc n) x f h =
        round-Ended (rounds n deadline) x h (λ y d k. rounds-Ended n y (omega (arith, d, f)) k)

  -- When a wait takes time and is at most `late` nanoseconds late, and the time of the deadline, with a
  -- millisecond and `late` added, fits the 64 bits of the clock, the wait for a reply ends: with the
  -- reply that was in the slot, which it empties; or with a timeout that is reported while the slot is
  -- empty, not earlier than a microsecond before the deadline, and not later than a millisecond and
  -- `late` after it; or because a wait was interrupted. The deadline is the timeout after the start, and
  -- the start itself for a negative timeout.
  pub wait_for_reply-Sound :
      (late : ℕ) (timeout_ms : ℤ) (x : t)
      → Timely late
      → c.now x + pos_part timeout_ms * 1000000 + 999000 + late < 2 ^ 63
      → (v : Outcome × t) × (wait_for_reply timeout_ms x ≡ some v)
        × Sound (c.now x + pos_part timeout_ms * 1000000) late v
  unfolding wait_for_reply deadline_of Ended
  wait_for_reply-Sound late timeout_ms x timely fits =
      let n = c.now x + pos_part timeout_ms * 1000000 in
      let e : n % 2 ^ 64 ≡ n = omega (arith, fits) in
      rw e (
        rounds-Ended n late timely fits (suc (pos_part timeout_ms * 1000000)) x (omega arith)
          (omega arith))
