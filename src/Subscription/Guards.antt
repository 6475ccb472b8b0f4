-- ===== src/Subscription/Guards.antt =====
-- The guards of the polling methods: a rule for what holds when such a method returns.
use module_nats.Common.{ℕ, ℤ, ◌≡◌, Bool, false, some, arith}
use module_nats.Runtime.{Result}
use module_nats.Poll.{Verdict, poll}
use module_nats.Poll.Ensures.{Rounds, poll-ensures, poll-keeps}
use module_nats.Subscription.Client.{Client, Subscription, check, invalid}
use module_nats.Subscription.Receive.{guarded}

module _ {ℓ} {A : Type ℓ} (P : ℤ → Subscription → Type 0) (Q : Result A → Subscription → Type 0)
    (c : Client) (body : ℤ → Subscription → Verdict A × Subscription) (infinite : Bool)
    (expired : Result A) (k : Rounds P Q (check c) body c.poll_interval infinite expired) where
  pub guarded-ensures :
      (fuel : ℕ) (r : ℤ) (s : Subscription) (x : Result A) (t : Subscription)
      → P r s
      → (s.sub ≡ false → Q invalid s)
      → guarded c (poll (check c) body c.poll_interval infinite expired fuel r) s ≡ some (x, t)
      → Q x t
  unfolding guarded
  guarded-ensures fuel r s x t p off e = ground (
    arith,
    off,
    k.check_stops r s p,
    poll-ensures P Q (check c) body c.poll_interval infinite expired k fuel r (check c s).1 x t
        (k.check_keeps r s p),
  )

-- An invariant that takes no note of the time left or the result.
module _ {ℓ} {A : Type ℓ} (P : Subscription → Type 0) (c : Client)
    (body : ℤ → Subscription → Verdict A × Subscription)
    (check_keeps : (s : Subscription) → P s → P (check c s).1)
    (body_keeps : (w : ℤ) (s : Subscription) → P s → P (body w s).1) where
  pub guarded-keeps :
      (infinite : Bool) (expired : Result A) (fuel : ℕ) (r : ℤ) (s : Subscription) (x : Result A)
      (t : Subscription)
      → P s
      → guarded c (poll (check c) body c.poll_interval infinite expired fuel r) s ≡ some (x, t)
      → P t
  unfolding guarded
  guarded-keeps infinite expired fuel r s x t p e = ground (
    arith,
    check_keeps s p,
    poll-keeps P (check c) body check_keeps body_keeps c.poll_interval infinite expired fuel r
        (check c s).1 x t,
  )
