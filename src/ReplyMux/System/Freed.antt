-- ===== src/ReplyMux/System/Freed.antt =====
-- When delivered replies are destroyed, and which slots there are.
use module_nats.Common.{
  ℕ, suc, false, ◌+◌, ◌<◌, ◌≡◌, refl, ap, sym, ◌∙◌, Option, none, some, List, [], ◌∷◌, arith,
  Bool-cases, Option-cases, inl, inr, count, count-cons,
}
use module_nats.ReplyMux.SlotMap.{
  Slots, find, erase, held, stored, keys, stored-put, stored-put_new, stored-erase, keys-put, same,
  same→eq, keys-put_both, keys-erase, find-keys, find-put_other, find-erase, erase-none, stored-nil,
  keys-nil, keys-of_nil,
}
use module_nats.ReplyMux.Decimal.{to_string, to_string-injective}
use module_nats.ReplyMux.{
  Mux, strip_prefix, deliver, reply_handler, register, stop_waiting, destroy_slots, destroy_mux,
}
use module_nats.ReplyMux.System.{System, release, started, Step, initial, Reach, created, later}
use module_nats.ReplyMux.System

-- The messages that a mux has destroyed or still holds.
abbrev at_mux : ℕ → Mux → ℕ
at_mux m x = count m x.destroyed + stored m x.replies

deliver-at :
    (m k : ℕ) (token : List ℕ) (x : Mux)
    → at_mux m (deliver token k x) ≡ held m (some k) + at_mux m x
unfolding deliver
deliver-at m k token x = elim (Option-cases (find token x.replies)) [
  | inl q ↦ rw (q, deliver) (ground (arith, count-cons m k x.destroyed))
  | inr (none, q) ↦ rw (q, deliver) (ground (arith, stored-put m token (some k) none x.replies q))
  | inr (some j, q) ↦ rw (q, deliver) (ground (arith, count-cons m k x.destroyed))
]

reply_handler-at :
    (m k : ℕ) (v : Option (List ℕ)) (x : Mux)
    → at_mux m (reply_handler v k x) ≡ held m (some k) + at_mux m x
unfolding reply_handler
reply_handler-at m k none x = ground (arith, count-cons m k x.destroyed)
reply_handler-at m k (some u) x = elim (Option-cases (strip_prefix x.prefix u)) [
  | inl q ↦ rw (q, reply_handler) (ground (arith, count-cons m k x.destroyed))
  | inr (token, q) ↦ rw (q, reply_handler) (deliver-at m k token x)
]

stop_waiting-at : (m : ℕ) (token : List ℕ) (x : Mux) → at_mux m (stop_waiting token x) ≡ at_mux m x
unfolding stop_waiting
stop_waiting-at m token x = elim (Option-cases (find token x.replies)) [
  | inl q ↦ rw (q, stop_waiting)
  | inr (none, q) ↦ rw (q, stop_waiting) (ground (arith, stored-erase m token none x.replies q))
  | inr (some k, q) ↦
      rw (q, stop_waiting)
        (ground (arith, count-cons m k x.destroyed, stored-erase m token (some k) x.replies q))
]

release-at : (m : ℕ) (v : Option ℕ) (x : Mux) → at_mux m (release v x) ≡ held m v + at_mux m x
release-at m none x = omega arith
release-at m (some k) x = ground (arith, count-cons m k x.destroyed)

destroy_slots_lem :
    (m : ℕ) (slots : Slots) (d : List ℕ)
    → count m (destroy_slots slots d) ≡ count m d + stored m slots
unfolding destroy_slots stored
destroy_slots_lem m [] d = omega arith
destroy_slots_lem m ((token, none) ∷ slots) d =
    let a = destroy_slots_lem m slots d in omega (arith, a)
destroy_slots_lem m ((token, some k) ∷ slots) d =
    let a = destroy_slots_lem m slots (k ∷ d) in let b = count-cons m k d in ground (arith, a, b)

pub release-replies : (v : Option ℕ) (x : Mux) → (release v x).replies ≡ x.replies
release-replies none x = refl
release-replies (some m) x = refl

deliver-keys :
    (token : List ℕ) (m : ℕ) (x : Mux) → keys (deliver token m x).replies ≡ keys x.replies
unfolding deliver
deliver-keys token m x = elim (Option-cases (find token x.replies)) [
  | inl q ↦ rw (q, deliver)
  | inr (none, q) ↦ rw (q, deliver) (keys-put token (some m) none x.replies q)
  | inr (some j, q) ↦ rw (q, deliver)
]

reply_handler-keys :
    (v : Option (List ℕ)) (m : ℕ) (x : Mux) → keys (reply_handler v m x).replies ≡ keys x.replies
unfolding reply_handler
reply_handler-keys none m x = refl
reply_handler-keys (some u) m x = elim (Option-cases (strip_prefix x.prefix u)) [
  | inl q ↦ rw (q, reply_handler)
  | inr (token, q) ↦ rw (q, reply_handler) (deliver-keys token m x)
]

pub stop_waiting-replies :
    (token : List ℕ) (x : Mux) → (stop_waiting token x).replies ≡ erase token x.replies
unfolding stop_waiting
stop_waiting-replies token x = elim (Option-cases (find token x.replies)) [
  | inl q ↦ rw (q, stop_waiting) (sym (erase-none token x.replies q))
  | inr (v, q) ↦ rw (q, stop_waiting)
]

-- A new token is not the token of a request.
pub same-false : (k j : List ℕ) → (k ≡ j → ⊥) → same k j ≡ false
same-false k j h = elim (Bool-cases (same k j)) [
  | inl hit ↦ elim (h (same→eq k j hit)) [ ]
  | inr miss ↦ miss
]

taken-new :
    (k j : List ℕ) (v : Option ℕ) (s : Slots) → find k s ≡ some v → find j s ≡ none → k ≡ j → ⊥
taken-new k j v s p q e = cc

-- The slots belong to the requests in progress, no later counter has been used as a token, and every
-- delivered message is destroyed, in a slot or held by a request.
pub record Inv (s : System) : Type 0 where
  pub paired : keys s.mux.replies ≡ keys s.requests
  pub fresh : (n : ℕ) → s.counter < n → find (to_string n) s.requests ≡ none
  pub kept : (m : ℕ) → count m s.delivered ≡ at_mux m s.mux + stored m s.requests

Inv-Freed :
    (s : System)
    → Inv s
    → s.requests ≡ []
    → (s.mux.replies ≡ []) × ((m : ℕ) → count m s.mux.destroyed ≡ count m s.delivered)
Inv-Freed s v e =
    let none_left = keys-nil s.mux.replies (v.paired ∙ ap keys e ∙ keys-of_nil) in
    (
      none_left,
      λ m.
          let a = ap (stored m) none_left ∙ stored-nil m in
          let b = ap (stored m) e ∙ stored-nil m in let c = v.kept m in omega (arith, a, b, c),
    )

start-Inv : (s : System) → Inv s → Inv (started s)
unfolding register
start-Inv s v = record {
  paired = keys-put_both (to_string (suc s.counter)) none none s.mux.replies s.requests v.paired;
  fresh = λ n h.
      find-put_other (to_string n) (to_string (suc s.counter)) none s.requests
        (same-false (to_string (suc s.counter)) (to_string n)
          (λ e. let d = to_string-injective (suc s.counter) n e in omega (arith, d, h)))
        (v.fresh n (omega (arith, h)));
  kept = λ m.
      let new = v.fresh (suc s.counter) (omega arith) in
      let a = stored-put_new m (to_string (suc s.counter)) none s.requests new in
      let b =
        stored-put_new m (to_string (suc s.counter)) none s.mux.replies
          (find-keys (to_string (suc s.counter)) s.requests s.mux.replies (sym v.paired) new) in
      let c = v.kept m in omega (arith, a, b, c);
}

module _ (subject : ℕ → Option (List ℕ)) where
  Step-Inv : {s t : System} → Step subject s t → Inv s → Inv t
  Step-Inv {s} System.start v = start-Inv s v
  Step-Inv {s} (System.deliver k) v = record {
    paired = reply_handler-keys (subject k) k s.mux ∙ v.paired;
    fresh = v.fresh;
    kept = λ m.
        let a = reply_handler-at m k (subject k) s.mux in
        let b = v.kept m in let c = count-cons m k s.delivered in ground (arith, a, b, c);
  }
  Step-Inv {s} (System.take token k p q) v = record {
    paired = keys-put_both token none (some k) s.mux.replies s.requests v.paired;
    fresh = λ n h.
        find-put_other (to_string n) token (some k) s.requests
          (same-false token (to_string n)
            (λ e. taken-new token (to_string n) none s.requests p (v.fresh n h) e))
          (v.fresh n h);
    kept = λ m.
        let a = stored-put m token (some k) none s.requests p in
        let b = stored-put m token none (some k) s.mux.replies q in
        let c = v.kept m in omega (arith, a, b, c);
  }
  Step-Inv {s} (System.finish token r p) v = record {
    paired =
        ap keys (stop_waiting-replies token (release r s.mux))
        ∙ ap (λ y. keys (erase token y)) (release-replies r s.mux)
        ∙ keys-erase token s.mux.replies s.requests v.paired;
    fresh = λ n h. find-erase (to_string n) token s.requests (v.fresh n h);
    kept = λ m.
        let a = stop_waiting-at m token (release r s.mux) in
        let b = release-at m r s.mux in
        let c = stored-erase m token r s.requests p in
        let d = v.kept m in omega (arith, a, b, c, d);
  }

  module _ (prefix : List ℕ) where
    pub Reach-Inv : {s : System} → Reach subject prefix s → Inv s
    unfolding find
    Reach-Inv created = record {
      paired = refl;
      fresh = λ n h. refl;
      kept = λ m. let a = stored-nil m in omega (arith, a);
    }
    Reach-Inv (later r st) = Step-Inv st (Reach-Inv r)

    -- In every interleaving of requests and deliveries, once no request is in progress, the mux holds
    -- no slot, and every message has been destroyed as often as it was delivered.
    pub Reach-Freed :
        {s : System}
        → Reach subject prefix s
        → s.requests ≡ []
        → (s.mux.replies ≡ []) × ((m : ℕ) → count m s.mux.destroyed ≡ count m s.delivered)
    Reach-Freed {s} r e = Inv-Freed s (Reach-Inv r) e

    -- In every interleaving, when the mux is destroyed, every message has been destroyed, or is held by
    -- a request, as often as it was delivered.
    pub destroy_mux-Reach :
        {s : System} (m : ℕ)
        → Reach subject prefix s
        → count m (destroy_mux s.mux).destroyed + stored m s.requests ≡ count m s.delivered
    unfolding destroy_mux
    destroy_mux-Reach {s} m r =
        let a = (Reach-Inv r).kept m in
        let b = destroy_slots_lem m s.mux.replies s.mux.destroyed in omega (arith, a, b)
