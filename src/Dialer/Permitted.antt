-- ===== src/Dialer/Permitted.antt =====
-- Which addresses the dialer tries, and what it reports.
use module_nats.Common.{
  ℕ, ◌≡◌, refl, sym, Bool, true, false, Option, none, some, List, [], ◌∷◌, subst, Option-cases,
  Bool-cases, inl, inr, All,
}
use module_nats.Runtime.{Status, Exception}
use module_nats.Dialer.{
  Network, Dialer, keep_exception, families, addresses, permitted, tries, attempt_case, dial,
  dial_all, connect_intern,
}

-- What a call of the dialer ends with, over the addresses `all`.
record Dialed (net : Network) (ms : ℕ) (denied : Bool) (all : List ℕ) (d : Dialer)
    (r : Status × Dialer) : Type 0 where
  allowed : All (λ a. permitted net a ≡ true) d.tried → All (λ a. permitted net a ≡ true) r.1.tried
  succeeded :
      r.0 ≡ Status.nats_ok
      → (a : ℕ) × (before : List ℕ) × (e : Option Exception) × (r.1.tried ≡ a ∷ before)
        × (net.connect_address before a ms ≡ (Status.nats_ok, e))
  unreachable :
      r.0 ≡ Status.nats_no_server → (denied ≡ false) × All (λ a. permitted net a ≡ true) all
  silent : d.initial ≡ false → d.pending ≡ none → r.1.pending ≡ none

keep_exception-silent :
    (e : Exception) (d : Dialer)
    → d.initial ≡ false
    → d.pending ≡ none
    → (keep_exception e d).pending ≡ none
unfolding keep_exception
keep_exception-silent e d i p = rw (p, keep_exception, i) p

keep_exception-tried : (e : Exception) (d : Dialer) → (keep_exception e d).tried ≡ d.tried
unfolding keep_exception
keep_exception-tried e d = elim (Option-cases d.pending) [
  | inl q ↦ elim (Bool-cases d.initial) [
    | inl on ↦ rw (q, keep_exception, on)
    | inr off ↦ rw (q, keep_exception, off)
  ]
  | inr (x, q) ↦ rw (q, keep_exception)
]

module _ (net : Network) (ms : ℕ) (denied : Bool) where
  attempt-Dialed :
      (rest : Dialer → Status × Dialer) (p : Status × Option Exception) (a : ℕ) (all : List ℕ)
      (d : Dialer)
      → permitted net a ≡ true
      → net.connect_address d.tried a ms ≡ p
      → Dialed net ms denied all (tries a d) (rest (tries a d))
      → Dialed net ms denied (a ∷ all) d (attempt_case rest p (tries a d))
  unfolding attempt_case
  attempt-Dialed rest (Status.nats_ok, e) a all d h q v = record {
    allowed = λ k. (h, k);
    succeeded = λ _. (a, d.tried, e, refl, q);
    unreachable = λ x. cc;
    silent = λ i k. k;
  }
  attempt-Dialed rest (st, some e) a all d h q v = record {
    allowed = λ k.
        subst (All (λ b. permitted net b ≡ true)) (sym (keep_exception-tried e (tries a d))) (h, k);
    succeeded = λ x. cc;
    unreachable = λ x. cc;
    silent = λ i k. keep_exception-silent e (tries a d) i k;
  }
  attempt-Dialed rest (st, none) a all d h q v = record {
    allowed = λ k. v.allowed (h, k);
    succeeded = v.succeeded;
    unreachable = λ x. ((v.unreachable x).0, (h, (v.unreachable x).1));
    silent = v.silent;
  }

dial-Dialed :
    (net : Network) (ms : ℕ) (denied : Bool) (all : List ℕ) (d : Dialer)
    → Dialed net ms denied all d (dial net ms denied all d)
unfolding dial
dial-Dialed net ms true [] d = record {
  allowed = λ k. k;
  succeeded = λ x. cc;
  unreachable = λ x. cc;
  silent = λ i k. k;
}
dial-Dialed net ms false [] d = record {
  allowed = λ k. k;
  succeeded = λ x. cc;
  unreachable = λ x. (refl, tt);
  silent = λ i k. k;
}
dial-Dialed net ms denied (a ∷ all) d = elim (Bool-cases (permitted net a)) [
  | inl h ↦
      rw (h, dial)
        (attempt-Dialed net ms denied (dial net ms denied all) _ a all d h refl
          (dial-Dialed net ms denied all (tries a d)))
  | inr n ↦
      let v = dial-Dialed net ms true all d in
      rw (n, dial)
        (record {
          allowed = v.allowed;
          succeeded = v.succeeded;
          unreachable = λ x. let y = (v.unreachable x).0 in cc;
          silent = v.silent;
        })
]

-- What a connection by the dialer ends with: the addresses that were tried are permitted, success is
-- that of the last attempt, "no server" means that no address was denied, and once the first
-- connection's exception was taken, none is kept.
pub record Connected (net : Network) (d : Dialer) (r : Status × Dialer) : Type 0 where
  pub allowed :
      All (λ a. permitted net a ≡ true) d.tried → All (λ a. permitted net a ≡ true) r.1.tried
  pub succeeded :
      r.0 ≡ Status.nats_ok
      → (ms : ℕ) × (a : ℕ) × (before : List ℕ) × (e : Option Exception) × (r.1.tried ≡ a ∷ before)
        × (net.connect_address before a ms ≡ (Status.nats_ok, e))
  pub unreachable :
      r.0 ≡ Status.nats_no_server
      → All (λ a. permitted net a ≡ true) (addresses net d.no_randomize (families d.order_ip))
  pub silent : d.initial ≡ false → d.pending ≡ none → r.1.pending ≡ none

dial_all-Connected :
    (net : Network) (d : Dialer) (all : List ℕ)
    → addresses net d.no_randomize (families d.order_ip) ≡ all
    → Connected net d (dial_all net all d)
unfolding dial_all
dial_all-Connected net d [] q = record {
  allowed = λ k. k;
  succeeded = λ x. cc;
  unreachable = λ x. rw q tt;
  silent = λ i k. k;
}
dial_all-Connected net d (a ∷ all) q =
    let v = dial-Dialed net _ false (a ∷ all) d in
    record {
      allowed = v.allowed;
      succeeded = λ x. let (b, t, e, y, z) = v.succeeded x in (_, b, t, e, y, z);
      unreachable = λ x. rw q ((v.unreachable x).1);
      silent = v.silent;
    }

-- For every network, a connection by the dialer tries permitted addresses only; it succeeds with the
-- last address tried, when that attempt did; it reports "no server" only when the policy permits every
-- address of the host; and it keeps no exception after the first connection's was taken.
pub connect_intern-Connected : (net : Network) (d : Dialer) → Connected net d (connect_intern net d)
unfolding connect_intern
connect_intern-Connected net d = dial_all-Connected net d _ refl
