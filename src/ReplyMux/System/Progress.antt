-- ===== src/ReplyMux/System/Progress.antt =====
-- That a request gets its reply: what the slot of a waiting request holds once a message was sent to
-- it.
use module_nats.Common.{
  ℕ, suc, ◌≡◌, refl, ap, sym, subst, ◌∙◌, false, Bool-cases, Option-cases, inl, inr, Option, none,
  some, List, [], ◌∷◌, ◌++◌, arith,
}
use module_nats.ReplyMux.Decimal.{to_string}
use module_nats.ReplyMux.SlotMap.{
  Slots, same, same→eq, find, erase, find-keys, find-put_same, find-put_miss, find-erase_miss,
}
use module_nats.ReplyMux.{Mux, strip_prefix, deliver, reply_handler, register}
use module_nats.ReplyMux.System.{
  System, release, started, delivered_to, taken, finished, Step, Reach, created, later,
}
use module_nats.ReplyMux.System
use module_nats.ReplyMux.System.Freed.{
  Inv, Reach-Inv, same-false, stop_waiting-replies, release-replies,
}
use module_nats.ReplyMux.System.Replies as Replies

strip_prefix-append : (p t : List ℕ) → strip_prefix p (p ++ t) ≡ some t
unfolding strip_prefix
strip_prefix-append [] t = refl
strip_prefix-append (c ∷ p) t = ground (arith, strip_prefix-append p t)

-- The slot holds a reply.
abbrev pub Filled : List ℕ → Mux → Type 0
Filled token x = (m : ℕ) × (find token x.replies ≡ some (some m))

found_new :
    (s : Slots) (new token : List ℕ)
    → find new s ≡ none
    → find token s ≡ some none
    → new ≡ token
    → ⊥
found_new s new token p q e = cc

deliver-Filled :
    (token : List ℕ) (m : ℕ) (x : Mux)
    → (find token x.replies ≡ none → ⊥)
    → Filled token (deliver token m x)
unfolding deliver
deliver-Filled token m x h = elim (Option-cases (find token x.replies)) [
  | inl q ↦ absurd (h q)
  | inr (none, q) ↦ rw (q, deliver) (m, find-put_same token (some m) x.replies)
  | inr (some k, q) ↦ rw (q, deliver) (k, q)
]

handler-Filled :
    (token p : List ℕ) (v : Option (List ℕ)) (m : ℕ) (x : Mux)
    → x.prefix ≡ p
    → (find token x.replies ≡ none → ⊥)
    → v ≡ some (p ++ token)
    → Filled token (reply_handler v m x)
unfolding reply_handler
handler-Filled token p v m x same_prefix h e =
    let q : strip_prefix x.prefix (p ++ token) ≡ some token =
      ap (λ y. strip_prefix y (p ++ token)) same_prefix ∙ strip_prefix-append p token in
    subst (λ w. Filled token (reply_handler w m x)) (sym e)
      (rw (q, reply_handler) (deliver-Filled token m x h))

not_both : (token : List ℕ) (s : Slots) → find token s ≡ none → find token s ≡ some none → ⊥
not_both token s p q = cc

reply_lost : (k : ℕ) → some none ≡ some (some k) → ⊥
reply_lost k e = cc

deliver-keeps :
    (token other : List ℕ) (m : ℕ) (x : Mux) → Filled token x → Filled token (deliver other m x)
unfolding deliver
deliver-keeps token other m x (k, e) = elim (Option-cases (find other x.replies)) [
  | inl q ↦ rw (q, deliver) (k, e)
  | inr (none, q) ↦
      rw (q, deliver)
        (elim (Bool-cases (same other token)) [
          | inl hit ↦
              absurd
                (reply_lost k (sym q ∙ ap (λ t. find t x.replies) (same→eq other token hit) ∙ e))
          | inr miss ↦ (k, find-put_miss token other (some m) x.replies miss ∙ e)
        ])
  | inr (some j, q) ↦ rw (q, deliver) (k, e)
]

reply_handler-keeps :
    (token : List ℕ) (v : Option (List ℕ)) (m : ℕ) (x : Mux)
    → Filled token x
    → Filled token (reply_handler v m x)
unfolding reply_handler
reply_handler-keeps token none m x h = h
reply_handler-keeps token (some u) m x h = elim (Option-cases (strip_prefix x.prefix u)) [
  | inl q ↦ rw (q, reply_handler) h
  | inr (other, q) ↦ rw (q, reply_handler) (deliver-keeps token other m x h)
]

-- The request waits, and its slot holds a reply.
pub record Ready (token : List ℕ) (s : System) : Type 0 where
  pub waits : find token s.requests ≡ some none
  pub filled : Filled token s.mux

module _ (subject : ℕ → Option (List ℕ)) (token : List ℕ) where
  -- A step of the C client, or of another request than that with the token.
  pub data Other (s : System) : System → Type 0 where
    starts : Other s (started s)
    delivers : (msg : ℕ) → Other s (delivered_to (subject msg) msg s)
    takes :
        (other : List ℕ) (msg : ℕ)
        → same other token ≡ false
        → find other s.requests ≡ some none
        → find other s.mux.replies ≡ some (some msg)
        → Other s (taken other msg s)
    finishes :
        (other : List ℕ) (reply : Option ℕ)
        → same other token ≡ false
        → find other s.requests ≡ some reply
        → Other s (finished other reply s)

  pub data Run (s : System) : System → Type 0 where
    stop : Run s s
    more : {t u : System} → Run s t → Other t u → Run s u

  Other-Step : {s t : System} → Other s t → Step subject s t
  Other-Step starts = System.start
  Other-Step (delivers m) = System.deliver m
  Other-Step (takes other m d p q) = System.take other m p q
  Other-Step (finishes other r d p) = System.finish other r p

  Other-Ready : {s t : System} → Other s t → Inv s → Ready token s → Ready token t
  unfolding register
  Other-Ready {s} starts v r =
      let new = v.fresh (suc s.counter) (omega arith) in
      let d =
        same-false (to_string (suc s.counter)) token
          (λ e. found_new s.requests _ token new r.waits e) in
      record {
        waits = find-put_miss token (to_string (suc s.counter)) none s.requests d ∙ r.waits;
        filled = (
          r.filled.0,
          find-put_miss token (to_string (suc s.counter)) none s.mux.replies d ∙ r.filled.1,
        );
      }
  Other-Ready {s} (delivers m) v r = record {
    waits = r.waits;
    filled = reply_handler-keeps token (subject m) m s.mux r.filled;
  }
  Other-Ready {s} (takes other m d p q) v r = record {
    waits = find-put_miss token other (some m) s.requests d ∙ r.waits;
    filled = (r.filled.0, find-put_miss token other none s.mux.replies d ∙ r.filled.1);
  }
  Other-Ready {s} (finishes other x d p) v r = record {
    waits = find-erase_miss token other s.requests d ∙ r.waits;
    filled = (
      r.filled.0,
      ap (find token) (stop_waiting-replies other (release x s.mux))
          ∙ ap (λ y. find token (erase other y)) (release-replies x s.mux)
          ∙ find-erase_miss token other s.mux.replies d
          ∙ r.filled.1,
    );
  }

  module _ (prefix : List ℕ) where
    Run-Ready :
        {s t : System}
        → Run s t
        → Reach subject prefix s
        → Ready token s
        → Ready token t × Reach subject prefix t
    Run-Ready stop r h = (h, r)
    Run-Ready (more run o) r h =
        let (g, q) = Run-Ready run r h in
        (Other-Ready o (Reach-Inv subject prefix q) g, later q (Other-Step o))

    delivered-Ready :
        (s : System) (m : ℕ)
        → Reach subject prefix s
        → find token s.requests ≡ some none
        → subject m ≡ some (prefix ++ token)
        → Ready token (delivered_to (subject m) m s)
    delivered-Ready s m r w e =
        let v = Reach-Inv subject prefix r in
        record {
          waits = w;
          filled =
              handler-Filled token prefix (subject m) m s.mux
                (Replies.Reach-Inv subject prefix r).same_prefix
                (λ q.
                  not_both token s.requests (find-keys token s.mux.replies s.requests v.paired q) w)
                e;
        }

    -- In every interleaving: once a message whose subject is the inbox prefix followed by the token of
    -- a waiting request has been delivered, the request can take a reply, then and after any further
    -- deliveries and steps of other requests.
    pub Run-taken :
        {s t : System} (m : ℕ)
        → Reach subject prefix s
        → find token s.requests ≡ some none
        → subject m ≡ some (prefix ++ token)
        → Run (delivered_to (subject m) m s) t
        → (k : ℕ) × Step subject t (taken token k t)
    Run-taken {s} m r w e run =
        let (g, q) = Run-Ready run (later r (System.deliver m)) (delivered-Ready s m r w e) in
        (g.filled.0, System.take token g.filled.0 g.waits g.filled.1)
