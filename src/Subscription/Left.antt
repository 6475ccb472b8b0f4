-- ===== src/Subscription/Left.antt =====
-- The time that a subscription's native waits have taken, and what is left of a timeout.
use module_nats.Common.{ℕ, ℤ, pos, ◌+◌, ◌≤◌, ◌≡◌, true, false, List, [], ◌∷◌, arith}
use module_nats.Common.Int.{pos_part, neg_part, ◌-ℤ◌, leb_ℤ}
use module_nats.Runtime.{Status}
use module_nats.Poll.{effective}
use module_nats.Subscription.Client.{Event, waited, Client, Subscription, log, check}
use module_nats.Subscription.Receive.{set_last_msg}

-- The milliseconds of all native waits.
unfoldable pub spent : List Event → ℕ
spent [] = 0
spent (waited w st ∷ t) = pos_part w + spent t
spent (_ ∷ t) = spent t

-- The newest event is a native wait that ended with this status.
abbrev pub LastWait : Status → List Event → Type 0
LastWait st t = (w : ℤ) × (rest : List Event) × (t ≡ waited w st ∷ rest)

-- What is left of a timeout of `n` since the state `s`.
pub record Left (n : ℕ) (s : Subscription) (r : ℤ) (t : Subscription) : Type 0 where
  pub sign : neg_part r ≡ 0
  pub sum : spent t.trace + pos_part r ≡ spent s.trace + n

rest_parts :
    (interval : ℕ) (r : ℤ)
    → neg_part r ≡ 0
    → leb_ℤ (r -ℤ effective interval false r) (pos 0) ≡ false
    → (neg_part (r -ℤ effective interval false r) ≡ 0)
      × (pos_part (r -ℤ effective interval false r) + pos_part (effective interval false r)
          ≡ pos_part r)
unfolding effective ◌-ℤ◌
rest_parts interval r n h = (ground arith, ground arith)

used_up :
    (interval : ℕ) (r : ℤ)
    → neg_part r ≡ 0
    → leb_ℤ (r -ℤ effective interval false r) (pos 0) ≡ true
    → pos_part (effective interval false r) ≡ pos_part r
unfolding effective ◌-ℤ◌
used_up interval r n h = ground arith

wait_le : (interval : ℕ) (r : ℤ) → pos_part (effective interval false r) ≤ pos_part r
unfolding effective
wait_le interval r = ground arith

module _ (n : ℕ) (s : Subscription) (interval : ℕ) (r : ℤ) (t : Subscription) (st : Status)
    (l : Left n s r t) where
  abbrev pub after_wait : Subscription
  after_wait = log (waited (effective interval false r) st) t

  pub over :
      leb_ℤ (r -ℤ effective interval false r) (pos 0) ≡ true
      → spent after_wait.trace ≡ spent s.trace + n
  unfolding spent
  over h = omega (arith, used_up interval r l.sign h, l.sum)

  pub more :
      leb_ℤ (r -ℤ effective interval false r) (pos 0) ≡ false
      → Left n s (r -ℤ effective interval false r) after_wait
  unfolding spent
  more h =
      let p = rest_parts interval r l.sign h in
      record { sign = p.0; sum = omega (arith, p.1, l.sum) }

  pub within : spent after_wait.trace ≤ spent s.trace + n
  unfolding spent
  within = omega (arith, wait_le interval r, l.sum)

pub check-Left :
    (n : ℕ) (c : Client) (s : Subscription) (r : ℤ) (t : Subscription)
    → Left n s r t
    → Left n s r (check c t).1
unfolding check spent
check-Left n c s r t l = record { sign = l.sign; sum = l.sum }

pub Left-le :
    (n : ℕ) (s : Subscription) (r : ℤ) (t : Subscription)
    → Left n s r t
    → spent t.trace ≤ spent s.trace + n
Left-le n s r t l = omega (arith, l.sum)

pub set_last_msg-spent : (m : ℕ) (s : Subscription) → spent (set_last_msg m s).trace ≡ spent s.trace
unfolding set_last_msg spent
set_last_msg-spent m s = ground arith
