-- ===== src/Poll.antt =====
-- The polling loop that QoreNatsSubscription::nextMsg, fetch and waitForDrainCompletion,
-- QoreNatsConnection::flush and QoreNatsKVWatcher::next share: a wait of any length is made of native
-- waits of at most QORE_IO_POLL_INTERVAL_MS, with a check for cancellation before each.
pub mod Bounds
pub mod Ends
pub mod Ensures
use module_nats.Common.{ℕ, zero, suc, ℤ, pos, Bool, true, false, Option, none, some, if◌then◌else◌}
use module_nats.Common.Int.{◌-ℤ◌, ltb_ℤ, leb_ℤ}
use module_nats.Runtime.{Result, raise, cancelled}

-- What one native wait says: the method returns, the wait timed out, or (the watcher's
-- `NATS_OK` without an entry) the loop goes round again with the same time left.
pub data Verdict {ℓ} (A : Type ℓ) : Type ℓ where
  finish : Result A → Verdict A
  timed_out : Verdict A
  retry : Verdict A

-- `remaining_ms > QORE_IO_POLL_INTERVAL_MS ? QORE_IO_POLL_INTERVAL_MS : remaining_ms`, and the
-- interval alone for an endless wait
unfoldable pub effective : ℕ → Bool → ℤ → ℤ
effective interval infinite remaining =
    if infinite
    then pos interval
    else (if ltb_ℤ (pos interval) remaining then pos interval else remaining)

module _ {ℓ κ} {S : Type ℓ} {A : Type κ} where
  -- The end of the loop's body, behind the native wait of `wait` milliseconds.
  unfoldable pub resume :
      (ℤ → S → Option (Result A × S))
      → Bool
      → Result A
      → ℤ
      → ℤ
      → Verdict A × S
      → Option (Result A × S)
  resume again infinite expired remaining wait (finish r, s) = some (r, s)
  resume again infinite expired remaining wait (retry, s) = again remaining s
  resume again infinite expired remaining wait (timed_out, s) = elim infinite [
    | true ↦ again remaining s
    | false ↦ elim (leb_ℤ (remaining -ℤ wait) (pos 0)) [
      | true ↦ some (expired, s)
      | false ↦ again (remaining -ℤ wait) s
    ]
  ]

  -- A round: the answer of the check for cancellation, the native wait, and what follows.
  unfoldable pub proceed :
      (ℤ → S → Option (Result A × S))
      → (ℤ → S → Verdict A × S)
      → ℕ
      → Bool
      → Result A
      → ℤ
      → Bool × S
      → Option (Result A × S)
  proceed again body interval infinite expired remaining (true, s) = some (raise cancelled, s)
  proceed again body interval infinite expired remaining (false, s) =
      let wait = effective interval infinite remaining in
      resume again infinite expired remaining wait (body wait s)

  -- `while (true)`, on fuel; `none` means that the fuel ran out.
  unfoldable pub poll :
      (S → Bool × S)
      → (ℤ → S → Verdict A × S)
      → ℕ
      → Bool
      → Result A
      → ℕ
      → ℤ
      → S
      → Option (Result A × S)
  poll check_cancel body interval infinite expired zero remaining s = none
  poll check_cancel body interval infinite expired (suc fuel) remaining s =
      proceed (poll check_cancel body interval infinite expired fuel) body interval infinite expired
        remaining (check_cancel s)
