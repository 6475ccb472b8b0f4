-- ===== src/Subscription/LastMsg.antt =====
-- Which message the acknowledgements of a subscription are about.
use module_nats.Common.{
  ℕ, ℤ, pos, ◌≡◌, refl, String, Bool, Option, none, some, List, [], ◌∷◌, arith,
}
use module_nats.Common.Int.{ltb_ℤ}
use module_nats.Runtime.{Status, Result, ok, raise}
use module_nats.Message.{MsgInfo, nats_msg_to_hash}
use module_nats.Poll.Ensures.{Leaves, Rounds}
use module_nats.Subscription.Client.{Event, received, called, Client, Subscription, log, check}
use module_nats.Subscription.Receive.{
  returned, set_last_msg, next_msg_case, next_msg_wait, next_msg,
}
use module_nats.Subscription.Acks.{acknowledge, ack, nak, in_progress, term}
use module_nats.Subscription.Guards.{guarded-ensures}

-- A result with a message is about the message that the object holds.
pub Holds : Client → Result (Option MsgInfo) → Subscription → Type 0
Holds c x t =
    (h : MsgInfo)
    → x ≡ ok (some h)
    → (m : ℕ) × (t.last_msg ≡ some m) × (nats_msg_to_hash c.set_refuses (c.message m) ≡ ok h)

set_last_msg-last : (m : ℕ) (s : Subscription) → (set_last_msg m s).last_msg ≡ some m
unfolding set_last_msg
set_last_msg-last m s = refl

returned-ok : (r : Result MsgInfo) (h : MsgInfo) → returned r ≡ ok (some h) → r ≡ ok h
unfolding returned
returned-ok (ok g) h e = ground arith
returned-ok (raise x) h e = cc

next_msg_case-Leaves :
    (c : Client) (infinite : Bool) (r w : ℤ) (st : Status) (m : ℕ) (t : Subscription)
    → let v = next_msg_case c st m t in
      Leaves (λ _ _. Unit {0}) (Holds c) infinite (ok none) r w v.0 v.1
unfolding next_msg_case Holds
next_msg_case-Leaves c i r w Status.nats_ok m t =
    λ h e. (m, set_last_msg-last m (log (received m) t), returned-ok _ h e)
next_msg_case-Leaves c i r w Status.nats_timeout m t = ((λ _. tt), (λ _ _ h e. cc), (λ _ _. tt))
next_msg_case-Leaves c i r w Status.nats_max_delivered_msgs m t = λ h e. cc
next_msg_case-Leaves c i r w Status.nats_invalid_subscription m t = λ h e. cc
next_msg_case-Leaves c i r w st m t = λ h e. cc

next_msg-Holds :
    (c : Client) (fuel : ℕ) (timeout : ℤ) (s : Subscription) (x : Result (Option MsgInfo))
    (t : Subscription)
    → next_msg c fuel timeout s ≡ some (x, t)
    → Holds c x t
unfolding next_msg next_msg_wait Holds
next_msg-Holds c fuel timeout s x t e =
    guarded-ensures (λ _ _. Unit {0}) (Holds c) c (next_msg_wait c) (ltb_ℤ timeout (pos 0))
      (ok none) rounds fuel timeout s x t tt (λ _ h q. cc) e
  where
    rounds :
        Rounds
          (λ _ _. Unit {0})
          (Holds c)
          (check c)
          (next_msg_wait c)
          c.poll_interval
          (ltb_ℤ timeout (pos 0))
          (ok none)
    rounds = record {
      check_keeps = λ r t l. tt;
      check_stops = λ r t l _ h q. cc;
      body_leaves = λ r t l. next_msg_case-Leaves c (ltb_ℤ timeout (pos 0)) r _ _ _ _;
    }

-- The newest event is a call about this message.
abbrev pub About : ℕ → String → List Event → Type 0
About m name t = (st : Status) × (rest : List Event) × (t ≡ called name (some m) st ∷ rest)

acknowledge-About :
    (c : Client) (err missing name fmt : String) (m : ℕ) (s : Subscription)
    → s.last_msg ≡ some m
    → About m name (acknowledge c err missing name fmt [] s).1.trace
unfolding acknowledge
acknowledge-About c err missing name fmt m s e = rw (e, acknowledge) (_, _, refl)

-- After a nextMsg that returned a message, with any timeout, ack, nak, inProgress and term call the C
-- client for the very message that was returned.
pub next_msg-About :
    (c : Client) (fuel : ℕ) (timeout : ℤ) (s : Subscription) (h : MsgInfo) (t : Subscription)
    → next_msg c fuel timeout s ≡ some (ok (some h), t)
    → (m : ℕ) × (nats_msg_to_hash c.set_refuses (c.message m) ≡ ok h)
      × About m "natsMsg_Ack" (ack c t).1.trace
      × About m "natsMsg_Nak" (nak c t).1.trace
      × About m "natsMsg_InProgress" (in_progress c t).1.trace
      × About m "natsMsg_Term" (term c t).1.trace
unfolding ack nak in_progress term Holds
next_msg-About c fuel timeout s h t e =
    let (m, l, q) = next_msg-Holds c fuel timeout s (ok (some h)) t e h refl in
    (
      m,
      q,
      acknowledge-About c _ _ _ _ m t l,
      acknowledge-About c _ _ _ _ m t l,
      acknowledge-About c _ _ _ _ m t l,
      acknowledge-About c _ _ _ _ m t l,
    )
