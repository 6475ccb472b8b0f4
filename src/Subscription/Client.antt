-- ===== src/Subscription/Client.antt =====
-- The C client as QoreNatsSubscription uses it, and the object's state.
use module_nats.Common.{
  ℕ, ℤ, String, Bool, false, Option, none, some, List, [], ◌∷◌, ◌==◌, if◌then◌else◌,
}
use module_nats.Runtime.{Status, Result, raise, raised}
use module_nats.Message.{Content}

-- What the object has asked of the C client, newest first, with the answers. A message is named by
-- a number that stands for its pointer.
pub data Event : Type 0 where
  -- `qore_check_cancel`
  checked : Bool → Event
  -- a native wait of so many milliseconds: natsSubscription_NextMsg, natsSubscription_Fetch or
  -- natsSubscription_WaitForDrainCompletion
  waited : ℤ → Status → Event
  -- a message that a wait handed to the object
  received : ℕ → Event
  -- natsMsg_Destroy
  destroyed : ℕ → Event
  -- natsSubscription_Destroy
  subscription_destroyed : Event
  -- any other call, by its name, with the message that it is about
  called : String → Option ℕ → Status → Event

-- The numbers that natsSubscription_GetStats fills in and the source reads.
pub record Stats : Type 0 where
  pub pending_msgs : ℤ
  pub pending_bytes : ℤ
  pub delivered_msgs : ℤ
  pub dropped_msgs : ℤ

-- jsMsgMetaData; the counters are uint64_t, the time is in nanoseconds.
pub record MetaData : Type 0 where
  pub domain : Option String
  pub stream : Option String
  pub consumer : Option String
  pub num_delivered : ℕ
  pub stream_seq : ℕ
  pub consumer_seq : ℕ
  pub num_pending : ℕ
  pub timestamp : ℤ

-- The answers of the C client and of the Qore runtime; each may depend on all that was asked before.
pub record Client : Type 0 where
  pub poll_interval : ℕ  -- QORE_IO_POLL_INTERVAL_MS
  pub check_cancel : List Event → Bool
  pub next_msg : List Event → ℤ → Status × ℕ
  pub fetch : List Event → ℤ → ℤ → Status × List ℕ
  pub wait_for_drain_completion : List Event → ℤ → Status
  pub call_status : List Event → String → List ℤ → Status
  pub message : ℕ → Content
  pub set_refuses : String → Bool
  pub is_valid : List Event → Bool
  pub get_pending : List Event → Status × ℤ × ℤ
  pub get_delivered : List Event → Status × ℤ
  pub get_dropped : List Event → Status × ℤ
  pub get_stats : List Event → Status × Stats
  pub get_subject : Option String
  pub get_id : ℤ
  pub metadata : ℕ → Status × MetaData

-- The private fields of the class. `sub` says whether the subscription pointer is set.
pub record Subscription : Type 0 where
  pub creator : ℕ
  pub sub : Bool
  pub last_msg : Option ℕ
  pub trace : List Event

-- the constructor
abbrev pub create : ℕ → Bool → List Event → Subscription
create pid sub trace = record { creator = pid; sub = sub; last_msg = none; trace = trace }

abbrev pub log : Event → Subscription → Subscription
log e s = record s { trace = e ∷ s.trace }

-- `if (lastMsg) natsMsg_Destroy(lastMsg);`
unfoldable pub destroy_last : Subscription → Subscription
destroy_last s = elim s.last_msg [ none ↦ s | some m ↦ log (destroyed m) s ]

-- `qore_check_cancel(xsink)`
unfoldable pub check : Client → Subscription → Bool × Subscription
check c s = let b = c.check_cancel s.trace in (b, log (checked b) s)

abbrev pub subscribe_error : String
subscribe_error = "NATS-SUBSCRIBE-ERROR"

abbrev pub invalid {ℓ} : {A : Type ℓ} → Result A
invalid = raise (raised subscribe_error "subscription is not valid" [])

-- The destructor, in the process `pid`.
unfoldable pub destroy : ℕ → Subscription → Subscription
unfolding destroy_last
destroy pid s =
    if pid == s.creator
    then (let t = record (destroy_last s) { last_msg = none } in
        if t.sub then record (log subscription_destroyed t) { sub = false } else t)
    else s
