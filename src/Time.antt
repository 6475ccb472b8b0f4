-- ===== src/Time.antt =====
-- Nanoseconds since the epoch as a Qore date, the conversion that nats_kv_entry_to_hash
-- (src/NatsHelper.cpp) and QoreNatsSubscription::getMetadata (src/QoreNatsSubscription.cpp) make.
use module_nats.Common.{
  ℕ, zero, suc, ◌+◌, ◌*◌, ◌/◌, ◌%◌, ◌<◌, ◌≡◌, ℤ, pos, negsuc, Option, none, some, arith,
}

-- `DateTimeNode::makeAbsolute(currentTZ(), seconds, us)`
pub record Date : Type 0 where
  pub seconds : ℕ
  pub us : ℕ

-- `if (ns > 0) { us = ns / 1000; ... us / 1000000, (int)(us % 1000000) ... }`
unfoldable pub date_of_ns : ℤ → Option Date
date_of_ns (pos zero) = none
date_of_ns (pos (suc n)) =
    some (record { seconds = suc n / 1000 / 1000000; us = suc n / 1000 % 1000000 })
date_of_ns (negsuc n) = none

-- A time after the epoch becomes the date that is the time rounded down to a microsecond.
pub date_of_ns_lem :
    (n : ℕ)
    → 0 < n
    → (d : Date) × (date_of_ns (pos n) ≡ some d)
      × (d.seconds * 1000000 + d.us ≡ n / 1000)
      × (d.us < 1000000)
unfolding date_of_ns
date_of_ns_lem zero h = absurd (omega arith)
date_of_ns_lem (suc n) h = (
  record { seconds = suc n / 1000 / 1000000; us = suc n / 1000 % 1000000 },
  ground arith,
  omega arith,
  omega arith,
)
