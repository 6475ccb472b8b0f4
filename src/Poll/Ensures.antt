-- ===== src/Poll/Ensures.antt =====
-- What holds when a polling loop returns, from an invariant of its rounds.
use module_nats.Common.{ℕ, zero, suc, ℤ, pos, ◌≡◌, refl, Bool, true, false, Option, some, arith}
use module_nats.Common.Int.{◌-ℤ◌, leb_ℤ}
use module_nats.Runtime.{Result, raise, cancelled}
use module_nats.Poll.{Verdict, finish, timed_out, retry, effective, resume, proceed, poll}

module _ {ℓ κ} {S : Type ℓ} {A : Type κ} (P : ℤ → S → Type 0) (Q : Result A → S → Type 0) where
  -- What a native wait of `w` milliseconds, `r` being left, leaves behind, for each verdict.
  abbrev pub Leaves : Bool → Result A → ℤ → ℤ → Verdict A → S → Type 0
  Leaves infinite expired r w (finish x) t = Q x t
  Leaves infinite expired r w retry t = P r t
  Leaves infinite expired r w timed_out t =
      (infinite ≡ true → P r t)
      × (infinite ≡ false → leb_ℤ (r -ℤ w) (pos 0) ≡ true → Q expired t)
      × (infinite ≡ false → leb_ℤ (r -ℤ w) (pos 0) ≡ false → P (r -ℤ w) t)

  pub record Rounds (check_cancel : S → Bool × S) (body : ℤ → S → Verdict A × S) (interval : ℕ)
      (infinite : Bool) (expired : Result A) : Type (ℓ ⊔ κ) where
    pub check_keeps : (r : ℤ) (s : S) → P r s → P r (check_cancel s).1
    pub check_stops :
        (r : ℤ) (s : S) → P r s → (check_cancel s).0 ≡ true → Q (raise cancelled) (check_cancel s).1
    pub body_leaves :
        (r : ℤ) (s : S)
        → P r s
        → let w = effective interval infinite r in
          Leaves infinite expired r w (body w s).0 (body w s).1

  resume-ensures :
      (again : ℤ → S → Option (Result A × S)) (infinite : Bool) (expired : Result A) (r w : ℤ)
      (v : Verdict A) (t : S)
      → ((r : ℤ) (s : S) (x : Result A) (t : S) → P r s → again r s ≡ some (x, t) → Q x t)
      → Leaves infinite expired r w v t
      → (x : Result A) (u : S) → resume again infinite expired r w (v, t) ≡ some (x, u)
      → Q x u
  unfolding resume
  resume-ensures again infinite expired r w (finish y) t ih l x u e = ground arith
  resume-ensures again infinite expired r w retry t ih l x u e = ih r t x u l e
  resume-ensures again true expired r w timed_out t ih l x u e = ih r t x u (l.0 refl) e
  resume-ensures again false expired r w timed_out t ih l x u e =
      ground (arith, ih (r -ℤ w) t x u, l.1 refl, l.2 refl)

  module _ (check_cancel : S → Bool × S) (body : ℤ → S → Verdict A × S) (interval : ℕ)
      (infinite : Bool) (expired : Result A)
      (k : Rounds check_cancel body interval infinite expired) where
    proceed-ensures :
        (again : ℤ → S → Option (Result A × S)) (r : ℤ) (c : Bool × S)
        → ((r : ℤ) (s : S) (x : Result A) (t : S) → P r s → again r s ≡ some (x, t) → Q x t)
        → P r c.1
        → (c.0 ≡ true → Q (raise cancelled) c.1)
        → (x : Result A) (u : S) → proceed again body interval infinite expired r c ≡ some (x, u)
        → Q x u
    unfolding proceed
    proceed-ensures again r (true, t) ih p q x u e = let stop = q refl in ground arith
    proceed-ensures again r (false, t) ih p q x u e =
        let w = effective interval infinite r in
        resume-ensures again infinite expired r w (body w t).0 (body w t).1 ih (k.body_leaves r t p)
          x u e

    pub poll-ensures :
        (fuel : ℕ) (r : ℤ) (s : S) (x : Result A) (u : S)
        → P r s
        → poll check_cancel body interval infinite expired fuel r s ≡ some (x, u)
        → Q x u
    unfolding poll
    poll-ensures zero r s x u p e = cc
    poll-ensures (suc fuel) r s x u p e =
        proceed-ensures (poll check_cancel body interval infinite expired fuel) r (check_cancel s)
          (λ r s x u p e. poll-ensures fuel r s x u p e) (k.check_keeps r s p) (k.check_stops r s p)
          x u e

-- An invariant that takes no note of the time left or the result.
module _ {ℓ κ} {S : Type ℓ} {A : Type κ} (P : S → Type 0) (check_cancel : S → Bool × S)
    (body : ℤ → S → Verdict A × S) (check_keeps : (s : S) → P s → P (check_cancel s).1)
    (body_keeps : (w : ℤ) (s : S) → P s → P (body w s).1) where
  keeps-Leaves :
      (infinite : Bool) (expired : Result A) (r w : ℤ) (v : Verdict A) (t : S)
      → P t
      → Leaves (λ _. P) (λ _. P) infinite expired r w v t
  keeps-Leaves infinite expired r w (finish x) t p = p
  keeps-Leaves infinite expired r w timed_out t p = ((λ _. p), (λ _ _. p), (λ _ _. p))
  keeps-Leaves infinite expired r w retry t p = p

  pub poll-keeps :
      (interval : ℕ) (infinite : Bool) (expired : Result A) (fuel : ℕ) (r : ℤ) (s : S)
      (x : Result A) (t : S)
      → P s
      → poll check_cancel body interval infinite expired fuel r s ≡ some (x, t)
      → P t
  poll-keeps interval infinite expired fuel r s x t p e =
      poll-ensures (λ _. P) (λ _. P) check_cancel body interval infinite expired rounds fuel r s x t
        p e
    where
      rounds : Rounds (λ _. P) (λ _. P) check_cancel body interval infinite expired
      rounds = record {
        check_keeps = λ _. check_keeps;
        check_stops = λ _ s q _. check_keeps s q;
        body_leaves = λ r s q. keeps-Leaves infinite expired r _ _ _ (body_keeps _ s q);
      }
