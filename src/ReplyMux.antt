-- ===== src/ReplyMux.antt =====
-- The replies to requests: getReplyMux, replyHandler and request of src/QoreNatsConnection.cpp, with
-- struct ReplyMux of src/QoreNatsConnection.h. One subscription to "<inbox>.*" receives the replies of
-- all requests of a connection; each waiting request has a slot under its token.
pub mod Decimal
pub mod SlotMap
pub mod Wait
pub mod System
mod Tests
use module_nats.Common.{
  ℕ, zero, suc, ◌+◌, Option, none, some, List, [], ◌∷◌, ◌++◌, Bool, true, false, ◌==◌,
  if◌then◌else◌,
}
unfoldable pub use Decimal.*
unfoldable pub use SlotMap.*

-- struct ReplyMux, with the messages that were destroyed, newest first. A message is named by a
-- number that stands for its pointer; texts are lists of character codes.
pub record Mux : Type 0 where
  pub prefix : List ℕ
  pub replies : Slots
  pub destroyed : List ℕ

-- natsMsg_Destroy
abbrev pub destroy_msg : ℕ → Mux → Mux
destroy_msg m x = record x { destroyed = m ∷ x.destroyed }

-- `!strncmp(subject, prefix, prefix.size())`, and the rest of the subject behind the prefix
unfoldable pub strip_prefix : List ℕ → List ℕ → Option (List ℕ)
strip_prefix [] s = some s
strip_prefix (c ∷ p) [] = none
strip_prefix (c ∷ p) (d ∷ s) = let rest = strip_prefix p s in if c == d then rest else none

-- The reply is for the request with this token: kept if it waits and has no reply yet.
unfoldable pub deliver : List ℕ → ℕ → Mux → Mux
unfolding find put
deliver token msg x = elim (find token x.replies) [
  | none ↦ destroy_msg msg x
  | some slot ↦ elim slot [
    | none ↦ record x { replies = put token (some msg) x.replies }
    | some _ ↦ destroy_msg msg x
  ]
]

-- replyHandler; the subject of a message may be a null pointer.
unfoldable pub reply_handler : Option (List ℕ) → ℕ → Mux → Mux
unfolding deliver strip_prefix
reply_handler none msg x = destroy_msg msg x
reply_handler (some subject) msg x = elim (strip_prefix x.prefix subject) [
  | none ↦ destroy_msg msg x
  | some token ↦ deliver token msg x
]

-- `mux->replies[token] = nullptr`
unfoldable pub register : List ℕ → Mux → Mux
unfolding put
register token x = record x { replies = put token none x.replies }

-- a reply that a request leaves in its slot
abbrev pub destroy_some : Option ℕ → Mux → Mux
destroy_some none x = x
destroy_some (some m) x = destroy_msg m x

-- The destructor of WaitingRequest.
unfoldable pub stop_waiting : List ℕ → Mux → Mux
unfolding find erase
stop_waiting token x = elim (find token x.replies) [
  | none ↦ x
  | some slot ↦ record (destroy_some slot x) { replies = erase token x.replies }
]

-- The destructor of ReplyMux, over the slots.
unfoldable pub destroy_slots : Slots → List ℕ → List ℕ
destroy_slots [] d = d
destroy_slots ((token, none) ∷ slots) d = destroy_slots slots d
destroy_slots ((token, some m) ∷ slots) d = destroy_slots slots (m ∷ d)

unfoldable pub destroy_mux : Mux → Mux
unfolding destroy_slots
destroy_mux x = record x { replies = []; destroyed = destroy_slots x.replies x.destroyed }
