-- ===== src/ReplyMux/System/Replies.antt =====
-- Which reply a request gets.
use module_nats.Common.{
  ℕ, suc, ◌≡◌, refl, ap, sym, subst, Option-cases, ◌∙◌, Option, none, some, List, [], ◌∷◌, ◌++◌,
  arith, Bool-cases, inl, inr,
}
use module_nats.ReplyMux.Decimal.{to_string}
use module_nats.ReplyMux.SlotMap.{Slots, same, same→eq, find, put, erase}
use module_nats.ReplyMux.{Mux, strip_prefix, deliver, reply_handler, register, stop_waiting}
use module_nats.ReplyMux.System.{System, release, started, Step, initial, Reach, created, later}
use module_nats.ReplyMux.System

strip_prefix_lem : (p s t : List ℕ) → strip_prefix p s ≡ some t → s ≡ p ++ t
unfolding strip_prefix
strip_prefix_lem [] s t h = ground arith
strip_prefix_lem (c ∷ p) [] t h = cc
strip_prefix_lem (c ∷ p) (d ∷ s) t h = ground (arith, strip_prefix_lem p s t)

module _ (subject : ℕ → Option (List ℕ)) (prefix : List ℕ) where
  -- The message was sent to the token.
  abbrev pub SentTo : List ℕ → Option ℕ → Type 0
  SentTo token none = Unit {0}
  SentTo token (some m) = subject m ≡ some (prefix ++ token)

  abbrev Matching : Slots → Type 0
  Matching [] = Unit {0}
  Matching ((token, v) ∷ s) = SentTo token v × Matching s

  Matching-find :
      (token : List ℕ) (v : Option ℕ) (s : Slots)
      → Matching s
      → find token s ≡ some v
      → SentTo token v
  unfolding find
  Matching-find token none s h e = tt
  Matching-find token (some m) [] h e = cc
  Matching-find token (some m) ((j, none) ∷ s) h e =
      ground (arith, Matching-find token (some m) s h.1)
  Matching-find token (some m) ((j, some k) ∷ s) h e =
      ground (arith, same→eq j token, h.0, Matching-find token (some m) s h.1)

  Matching-put :
      (token : List ℕ) (v : Option ℕ) (s : Slots)
      → Matching s
      → SentTo token v
      → Matching (put token v s)
  unfolding put
  Matching-put token v [] h e = (e, tt)
  Matching-put token v ((j, w) ∷ s) h e = elim (Bool-cases (same j token)) [
    | inl hit ↦ rw hit (subst (λ t. SentTo t v) (sym (same→eq j token hit)) e, h.1)
    | inr miss ↦ rw miss (h.0, Matching-put token v s h.1 e)
  ]

  Matching-erase : (token : List ℕ) (s : Slots) → Matching s → Matching (erase token s)
  unfolding erase
  Matching-erase token [] h = tt
  Matching-erase token ((j, w) ∷ s) h = elim (Bool-cases (same j token)) [
    | inl hit ↦ rw hit h.1
    | inr miss ↦ rw miss (h.0, Matching-erase token s h.1)
  ]

  -- Both slot lists hold matching replies only.
  pub record Inv (s : System) : Type 0 where
    pub same_prefix : s.mux.prefix ≡ prefix
    slots : Matching s.mux.replies
    taken : Matching s.requests

  deliver-Matching :
      (token : List ℕ) (m : ℕ) (x : Mux)
      → subject m ≡ some (prefix ++ token)
      → Matching x.replies
      → Matching (deliver token m x).replies
  unfolding deliver
  deliver-Matching token m x e h = elim (Option-cases (find token x.replies)) [
    | inl q ↦ rw (q, deliver) h
    | inr (none, q) ↦ rw (q, deliver) (Matching-put token (some m) x.replies h e)
    | inr (some k, q) ↦ rw (q, deliver) h
  ]

  reply_handler-Matching :
      (v : Option (List ℕ)) (m : ℕ) (x : Mux)
      → subject m ≡ v
      → x.prefix ≡ prefix
      → Matching x.replies
      → Matching (reply_handler v m x).replies
  unfolding reply_handler
  reply_handler-Matching none m x e p h = h
  reply_handler-Matching (some u) m x e p h = elim (Option-cases (strip_prefix x.prefix u)) [
    | inl q ↦ rw (q, reply_handler) h
    | inr (token, q) ↦
        rw (q, reply_handler)
          (deliver-Matching token m x
            (e ∙ ap some (strip_prefix_lem x.prefix u token q ∙ ap (λ y. y ++ token) p)) h)
  ]

  deliver-prefix : (token : List ℕ) (m : ℕ) (x : Mux) → (deliver token m x).prefix ≡ x.prefix
  unfolding deliver
  deliver-prefix token m x = ground arith

  reply_handler-prefix :
      (v : Option (List ℕ)) (m : ℕ) (x : Mux) → (reply_handler v m x).prefix ≡ x.prefix
  unfolding reply_handler
  reply_handler-prefix none m x = refl
  reply_handler-prefix (some u) m x = elim (Option-cases (strip_prefix x.prefix u)) [
    | inl q ↦ rw (q, reply_handler)
    | inr (token, q) ↦ rw (q, reply_handler) (deliver-prefix token m x)
  ]

  stop_waiting-prefix : (token : List ℕ) (x : Mux) → (stop_waiting token x).prefix ≡ x.prefix
  unfolding stop_waiting
  stop_waiting-prefix token x = ground arith

  stop_waiting-Matching :
      (token : List ℕ) (x : Mux) → Matching x.replies → Matching (stop_waiting token x).replies
  unfolding stop_waiting
  stop_waiting-Matching token x h = elim (Option-cases (find token x.replies)) [
    | inl q ↦ rw (q, stop_waiting) h
    | inr (v, q) ↦ rw (q, stop_waiting) (Matching-erase token x.replies h)
  ]

  release-same :
      (v : Option ℕ) (x : Mux)
      → ((release v x).prefix ≡ x.prefix) × ((release v x).replies ≡ x.replies)
  release-same none x = (refl, refl)
  release-same (some m) x = (refl, refl)

  Step-Inv : {s t : System} → Step subject s t → Inv s → Inv t
  unfolding register
  Step-Inv {s} System.start v = record {
    same_prefix = v.same_prefix;
    slots = Matching-put (to_string (suc s.counter)) none s.mux.replies v.slots tt;
    taken = Matching-put (to_string (suc s.counter)) none s.requests v.taken tt;
  }
  Step-Inv {s} (System.deliver m) v = record {
    same_prefix = reply_handler-prefix (subject m) m s.mux ∙ v.same_prefix;
    slots = reply_handler-Matching (subject m) m s.mux refl v.same_prefix v.slots;
    taken = v.taken;
  }
  Step-Inv {s} (System.take token m p q) v = record {
    same_prefix = v.same_prefix;
    slots = Matching-put token none s.mux.replies v.slots tt;
    taken =
        Matching-put token (some m) s.requests v.taken
          (Matching-find token (some m) s.mux.replies v.slots q);
  }
  Step-Inv {s} (System.finish token r p) v = record {
    same_prefix =
        stop_waiting-prefix token (release r s.mux) ∙ (release-same r s.mux).0 ∙ v.same_prefix;
    slots =
        stop_waiting-Matching token (release r s.mux)
          (subst Matching (sym (release-same r s.mux).1) v.slots);
    taken = Matching-erase token s.requests v.taken;
  }

  pub Reach-Inv : {s : System} → Reach subject prefix s → Inv s
  Reach-Inv created = record { same_prefix = refl; slots = tt; taken = tt }
  Reach-Inv (later r st) = Step-Inv st (Reach-Inv r)

  -- In every interleaving, a reply that a request has taken was sent to the subject that the request
  -- gave for its reply: the inbox prefix and the request's own token.
  pub taken-SentTo :
      {s : System} (token : List ℕ) (m : ℕ)
      → Reach subject prefix s
      → find token s.requests ≡ some (some m)
      → subject m ≡ some (prefix ++ token)
  taken-SentTo {s} token m r e = Matching-find token (some m) s.requests (Reach-Inv r).taken e
