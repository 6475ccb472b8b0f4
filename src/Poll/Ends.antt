-- ===== src/Poll/Ends.antt =====
-- A polling loop ends: enough fuel is the time left, and what the environment says more than once.
use module_nats.Common.{
  Bool-cases, inl, inr, ℕ, zero, suc, ◌+◌, ◌≤◌, ◌<◌, ℤ, pos, ◌≡◌, refl, Bool, true, false, Option,
  some, arith,
}
use module_nats.Common.Int.{pos_part, ◌-ℤ◌, leb_ℤ}
use module_nats.Runtime.{Result}
use module_nats.Poll.{Verdict, finish, timed_out, retry, effective, resume, proceed, poll}

rest_falls :
    (interval : ℕ) (infinite : Bool) (r : ℤ)
    → 0 < interval
    → infinite ≡ false
    → leb_ℤ (r -ℤ effective interval infinite r) (pos 0) ≡ false
    → pos_part (r -ℤ effective interval infinite r) < pos_part r
unfolding effective ◌-ℤ◌
rest_falls interval infinite r p i h = ground arith

-- The loop returns.
abbrev pub Returns {ℓ} : {B : Type ℓ} → Option B → Type ℓ
Returns {B} o = (b : B) × (o ≡ some b)

module _ {ℓ κ} {S : Type ℓ} {A : Type κ} where
  -- A measure that no call raises, and that a round which does not count lowers; in an endless wait
  -- each round lowers it.
  pub record Bounded (check_cancel : S → Bool × S) (body : ℤ → S → Verdict A × S) (infinite : Bool)
      (measure : S → ℕ) : Type (ℓ ⊔ κ) where
    pub check_le : (s : S) → measure (check_cancel s).1 ≤ measure s
    pub body_le : (w : ℤ) (s : S) → measure (body w s).1 ≤ measure s
    pub body_retry : (w : ℤ) (s : S) → (body w s).0 ≡ retry → measure (body w s).1 < measure s
    pub body_endless :
        (w : ℤ) (s : S)
        → infinite ≡ true
        → (body w s).0 ≡ timed_out
        → measure (body w s).1 < measure s

  module _ (check_cancel : S → Bool × S) (body : ℤ → S → Verdict A × S) (interval : ℕ)
      (expired : Result A) (infinite : Bool) (measure : S → ℕ)
      (b : Bounded check_cancel body infinite measure) (positive : 0 < interval) where
    resume-Returns :
        (again : ℤ → S → Option (Result A × S)) (fuel : ℕ) (r : ℤ) (n : ℕ) (v : Verdict A) (t : S)
        → ((r : ℤ) (s : S) → pos_part r + measure s < fuel → Returns (again r s))
        → pos_part r + n < suc fuel
        → measure t ≤ n
        → (v ≡ retry → measure t < n)
        → (infinite ≡ true → v ≡ timed_out → measure t < n)
        → Returns (resume again infinite expired r (effective interval infinite r) (v, t))
    unfolding resume
    resume-Returns again fuel r n (finish x) t ih h p q e = ((x, t), refl)
    resume-Returns again fuel r n retry t ih h p q e = let fall = q refl in ih r t (omega arith)
    resume-Returns again fuel r n timed_out t ih h p q e = elim (Bool-cases infinite) [
      | inl i ↦ let fall = e i refl in rw (i, resume) (ih r t (omega arith))
      | inr i ↦ elim (Bool-cases (leb_ℤ (r -ℤ effective interval infinite r) (pos 0))) [
        | inl over ↦ rw (i, resume) (rw (over, resume) ((expired, t), refl))
        | inr more ↦
            let fall = rest_falls interval infinite r positive i more in
            rw (i, resume)
              (rw (more, resume) (ih (r -ℤ effective interval infinite r) t (omega arith)))
      ]
    ]

    proceed-Returns :
        (again : ℤ → S → Option (Result A × S)) (fuel : ℕ) (r : ℤ) (n : ℕ) (c : Bool × S)
        → ((r : ℤ) (s : S) → pos_part r + measure s < fuel → Returns (again r s))
        → pos_part r + n < suc fuel
        → measure c.1 ≤ n
        → Returns (proceed again body interval infinite expired r c)
    unfolding proceed
    proceed-Returns again fuel r n (true, t) ih h p = (_, refl)
    proceed-Returns again fuel r n (false, t) ih h p =
        let wait = effective interval infinite r in
        resume-Returns again fuel r n (body wait t).0 (body wait t).1 ih h
          (omega (arith, b.body_le wait t)) (λ v. omega (arith, b.body_retry wait t v))
          (λ i v. omega (arith, b.body_endless wait t i v))

    -- Enough fuel gives a result.
    pub poll-Returns :
        (fuel : ℕ) (r : ℤ) (s : S)
        → pos_part r + measure s < fuel
        → Returns (poll check_cancel body interval infinite expired fuel r s)
    unfolding poll
    poll-Returns zero r s h = absurd (omega arith)
    poll-Returns (suc fuel) r s h =
        proceed-Returns (poll check_cancel body interval infinite expired fuel) fuel r (measure s)
          (check_cancel s) (poll-Returns fuel) h (b.check_le s)
