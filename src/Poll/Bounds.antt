-- ===== src/Poll/Bounds.antt =====
-- How long a polling loop waits in all.
use module_nats.Common.{
  ℕ, zero, suc, ◌+◌, ◌≤◌, ℤ, pos, ◌≡◌, refl, Bool, true, false, Option, some, arith,
}
use module_nats.Common.Int.{pos_part, ◌-ℤ◌, leb_ℤ}
use module_nats.Runtime.{Result}
use module_nats.Poll.{Verdict, finish, timed_out, retry, effective, resume, proceed, poll}

effective_le : (interval : ℕ) (r : ℤ) → pos_part (effective interval false r) ≤ pos_part r
unfolding effective
effective_le interval r = ground arith

effective_le_interval : (interval : ℕ) (r : ℤ) → pos_part (effective interval false r) ≤ interval
unfolding effective
effective_le_interval interval r = ground arith

-- What is left after a wait that does not use up the timeout.
rest_lem :
    (interval : ℕ) (r : ℤ)
    → leb_ℤ (r -ℤ effective interval false r) (pos 0) ≡ false
    → pos_part (r -ℤ effective interval false r) + pos_part (effective interval false r)
      ≡ pos_part r
unfolding effective ◌-ℤ◌
rest_lem interval r h = ground arith

abbrev Within {ℓ} : {S : Type ℓ} → (S → ℕ) → (S → ℕ) → ℤ → S → S → Type 0
Within spent slack r s t = spent t + slack s ≤ spent s + pos_part r + slack t

module _ {ℓ κ} {S : Type ℓ} {A : Type κ} where
  -- `spent` adds up the native waits, and `slack` the ones that did not count against the timeout.
  pub record Metered (check_cancel : S → Bool × S) (body : ℤ → S → Verdict A × S) (interval : ℕ)
      (spent slack : S → ℕ) : Type (ℓ ⊔ κ) where
    pub check_spent : (s : S) → spent (check_cancel s).1 ≡ spent s
    pub check_slack : (s : S) → slack (check_cancel s).1 ≡ slack s
    pub body_spent : (w : ℤ) (s : S) → spent (body w s).1 ≡ spent s + pos_part w
    pub body_slack : (w : ℤ) (s : S) → slack s ≤ slack (body w s).1
    pub body_retry :
        (w : ℤ) (s : S) → (body w s).0 ≡ retry → slack s + interval ≤ slack (body w s).1

  resume-bound :
      (again : ℤ → S → Option (Result A × S)) (expired : Result A) (spent slack : S → ℕ)
      (interval : ℕ) (r : ℤ) (s : S) (v : Verdict A) (t : S)
      → ((r : ℤ) (s : S) (x : Result A) (t : S)
          → again r s ≡ some (x, t)
          → Within spent slack r s t)
      → spent t ≡ spent s + pos_part (effective interval false r)
      → slack s ≤ slack t
      → (v ≡ retry → slack s + interval ≤ slack t)
      → (x : Result A) (u : S)
      → resume again false expired r (effective interval false r) (v, t) ≡ some (x, u)
      → Within spent slack r s u
  unfolding resume
  resume-bound again expired spent slack interval r s (finish y) t ih a b c x u e =
      ground (arith, effective_le interval r)
  resume-bound again expired spent slack interval r s timed_out t ih a b c x u e = ground (
    arith,
    effective_le interval r,
    rest_lem interval r,
    ih (r -ℤ effective interval false r) t x u,
  )
  resume-bound again expired spent slack interval r s retry t ih a b c x u e =
      ground (arith, effective_le_interval interval r, ih r t x u e, c refl)

  module _ (check_cancel : S → Bool × S) (body : ℤ → S → Verdict A × S) (interval : ℕ)
      (expired : Result A) (spent slack : S → ℕ)
      (m : Metered check_cancel body interval spent slack) where
    proceed-bound :
        (again : ℤ → S → Option (Result A × S)) (r : ℤ) (s : S)
        → ((r : ℤ) (s : S) (x : Result A) (t : S)
            → again r s ≡ some (x, t)
            → Within spent slack r s t)
        → (c : Bool × S) → spent c.1 ≡ spent s
        → slack c.1 ≡ slack s
        → (x : Result A) (u : S) → proceed again body interval false expired r c ≡ some (x, u)
        → Within spent slack r s u
    unfolding proceed
    proceed-bound again r s ih (true, t) p q x u e = ground arith
    proceed-bound again r s ih (false, t) p q x u e =
        let wait = effective interval false r in
        let bound : Within spent slack r t u =
          resume-bound again expired spent slack interval r t (body wait t).0 (body wait t).1 ih
            (m.body_spent wait t) (m.body_slack wait t) (m.body_retry wait t) x u e in
        omega arith

    -- The native waits add up to the timeout at most, and one interval for each round that did not
    -- count.
    pub poll-bound :
        (fuel : ℕ) (r : ℤ) (s : S) (x : Result A) (u : S)
        → poll check_cancel body interval false expired fuel r s ≡ some (x, u)
        → Within spent slack r s u
    unfolding poll
    poll-bound zero r s x u e = cc
    poll-bound (suc fuel) r s x u e =
        proceed-bound (poll check_cancel body interval false expired fuel) r s (poll-bound fuel)
          (check_cancel s) (m.check_spent s) (m.check_slack s) x u e
