-- ===== src/Connection/Client.antt =====
-- The C client as QoreNatsConnection uses it, and the object's state.
use module_nats.Common.{ℕ, ℤ, String, Bool, List, [], ◌∷◌}
use module_nats.Runtime.{Status, Arg, Result, raise, raised}

-- What the object has asked of the C client, newest first, with the answers.
pub data Event : Type 0 where
  checked : Bool → Event
  -- natsConnection_FlushTimeout, for so many milliseconds
  waited : ℤ → Status → Event
  -- a message that natsMsg_Create made, and natsMsg_Destroy
  created_msg : Event
  destroyed_msg : Event
  -- any other call, with its arguments
  called : String → List Arg → Status → Event

-- The answers of the C client and of the Qore runtime; each may depend on all that was asked before.
pub record Client : Type 0 where
  pub poll_interval : ℕ  -- QORE_IO_POLL_INTERVAL_MS
  pub check_cancel : List Event → Bool
  pub call_status : List Event → String → List Arg → Status
  pub flush_timeout : List Event → ℤ → Status
  pub is_closed : List Event → Bool

-- `is_set` says whether the connection pointer is set.
pub record Connection : Type 0 where
  pub creator : ℕ
  pub is_set : Bool
  pub trace : List Event

abbrev pub log : Event → Connection → Connection
log e s = record s { trace = e ∷ s.trace }

unfoldable pub check : Client → Connection → Bool × Connection
check c s = let b = c.check_cancel s.trace in (b, log (checked b) s)

abbrev pub not_connected {ℓ} : {A : Type ℓ} → String → Result A
not_connected err = raise (raised err "not connected" [])
