-- ===== src/ReplyMux/System.antt =====
-- The reply mux under any interleaving of requests on Qore threads and deliveries on C client
-- threads; each step is one section under the lock of the mux.
pub mod Replies
pub mod Freed
pub mod Progress
use module_nats.Common.{ℕ, suc, ◌+◌, ◌≡◌, Option, none, some, List, [], ◌∷◌}
use module_nats.ReplyMux.Decimal.{to_string}
use module_nats.ReplyMux.SlotMap.{Slots, find, put, erase}
use module_nats.ReplyMux.{Mux, reply_handler, register, stop_waiting}

-- `requests` has an entry for each call of request that has registered its token and has not
-- returned: none while it waits, and the reply that it has taken out of its slot.
pub record System : Type 0 where
  pub counter : ℕ
  pub mux : Mux
  pub requests : Slots
  pub delivered : List ℕ

-- the reply that a request holds is destroyed by its NatsMsgHolder
abbrev pub release : Option ℕ → Mux → Mux
release none x = x
release (some m) x = record x { destroyed = m ∷ x.destroyed }

-- `token = std::to_string(++reply_counter); ... mux->replies[token] = nullptr;`
abbrev pub started : System → System
started s = record {
  counter = suc s.counter;
  mux = register (to_string (suc s.counter)) s.mux;
  requests = put (to_string (suc s.counter)) none s.requests;
  delivered = s.delivered;
}

-- replyHandler runs for a message, whose subject is given
abbrev pub delivered_to : Option (List ℕ) → ℕ → System → System
delivered_to subject msg s = record s {
  mux = reply_handler subject msg s.mux;
  delivered = msg ∷ s.delivered;
}

-- `reply = mux->replies[token]`, and `mux->replies[token] = nullptr;`
abbrev pub taken : List ℕ → ℕ → System → System
taken token msg s = record s {
  mux = record s.mux { replies = put token none s.mux.replies };
  requests = put token (some msg) s.requests;
}

-- request returns, with or without a reply
abbrev pub finished : List ℕ → Option ℕ → System → System
finished token reply s = record s {
  mux = stop_waiting token (release reply s.mux);
  requests = erase token s.requests;
}

abbrev pub initial : List ℕ → System
initial prefix = record {
  counter = 0;
  mux = record { prefix = prefix; replies = []; destroyed = [] };
  requests = [];
  delivered = [];
}

module _ (subject : ℕ → Option (List ℕ)) where
  -- `subject` is natsMsg_GetSubject.
  pub data Step (s : System) : System → Type 0 where
    start : Step s (started s)
    deliver : (msg : ℕ) → Step s (delivered_to (subject msg) msg s)
    take :
        (token : List ℕ) (msg : ℕ)
        → find token s.requests ≡ some none
        → find token s.mux.replies ≡ some (some msg)
        → Step s (taken token msg s)
    finish :
        (token : List ℕ) (reply : Option ℕ)
        → find token s.requests ≡ some reply
        → Step s (finished token reply s)

  pub data Reach (prefix : List ℕ) : System → Type 0 where
    created : Reach prefix (initial prefix)
    later : {s t : System} → Reach prefix s → Step s t → Reach prefix t
