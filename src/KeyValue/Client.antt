-- ===== src/KeyValue/Client.antt =====
-- The C client as the key-value store and the watcher use it, and their states.
use module_nats.Common.{ℕ, ℤ, String, Bool, true, false, Option, List, [], ◌∷◌, ◌==◌, if◌then◌else◌}
use module_nats.Runtime.{Status, Arg, Result, raise, raised, cancelled}
use module_nats.KeyValue.Entry.{Entry}

-- What an object has asked of the C client, newest first, with the answers. An entry is named by a
-- number that stands for its pointer.
pub data Event : Type 0 where
  checked : Bool → Event
  -- kvWatcher_Next, for so many milliseconds
  waited : ℤ → Status → Event
  -- `NATS_OK` without an entry
  no_entry : Event
  -- an entry that the C client handed over, and kvEntry_Destroy
  received : ℕ → Event
  destroyed : ℕ → Event
  -- a call with its key, value and revision
  called : String → List Arg → Status → Event
  -- the store or the watcher itself is destroyed
  handle_destroyed : Event

-- kvStatus, as far as it is read; the time to live is in nanoseconds.
pub record BucketStatus : Type 0 where
  pub bucket : Option String
  pub values : ℕ
  pub history : ℤ
  pub ttl : ℕ
  pub replicas : ℤ
  pub bytes : ℕ

-- Which events a watch reports: kvWatchOptions, as far as it is set.
pub record WatchOptions : Type 0 where
  pub ignore_deletes : Bool
  pub meta_only : Bool
  pub updates_only : Bool

-- The answers of the C client and of the Qore runtime; each may depend on all that was asked before.
pub record Client : Type 0 where
  pub poll_interval : ℕ  -- QORE_IO_POLL_INTERVAL_MS
  pub check_cancel : List Event → Bool
  -- kvStore_Put, kvStore_PutString, kvStore_Create, kvStore_Update: the new revision, a uint64_t
  pub write : List Event → String → List Arg → Status × ℕ
  -- kvStore_Delete, kvStore_Purge, kvStore_Watch, kvStore_WatchMulti, kvStore_WatchAll, kvWatcher_Stop
  pub call_status : List Event → String → List Arg → Status
  pub get : List Event → String → Status × ℕ
  pub keys : List Event → Status × List String
  pub history : List Event → String → Status × List ℕ
  pub bucket : String
  pub status : List Event → Status × BucketStatus
  pub default_options : WatchOptions  -- kvWatchOptions_Init
  pub next : List Event → ℤ → Status × Option ℕ
  pub entry : ℕ → Entry
  pub set_refuses : String → Bool

-- The fields of QoreNatsKVStore and of QoreNatsKVWatcher: the creating process, and whether the
-- native handle is set.
pub record Handle : Type 0 where
  pub creator : ℕ
  pub is_set : Bool
  pub trace : List Event

abbrev pub create : ℕ → Bool → Handle
create pid is_set = record { creator = pid; is_set = is_set; trace = [] }

abbrev pub log : Event → Handle → Handle
log e s = record s { trace = e ∷ s.trace }

unfoldable pub check : Client → Handle → Bool × Handle
check c s = let b = c.check_cancel s.trace in (b, log (checked b) s)

abbrev pub kv_error : String
kv_error = "NATS-KV-ERROR"

abbrev pub invalid {ℓ} : {A : Type ℓ} → Result A
invalid = raise (raised kv_error "KV store is not valid" [])

-- The destructors, in the process `pid`.
unfoldable pub destroy : ℕ → Handle → Handle
destroy pid s =
    if pid == s.creator
    then (if s.is_set then record (log handle_destroyed s) { is_set = false } else s)
    else s

-- The two guards at the head of each method of the store, and the rest of the method.
unfoldable pub guarded {ℓ} :
    {A : Type ℓ} → Client → (Handle → Result A × Handle) → Handle → Result A × Handle
unfolding check
guarded c rest s =
    if s.is_set
    then (let (stop, t) = check c s in elim stop [ true ↦ (raise cancelled, t) | false ↦ rest t ])
    else (invalid, s)
