-- ===== src/KeyValue/Watcher.antt =====
-- QoreNatsKVStore::watch, watchMulti and watchAll, which make a watcher, and the methods of
-- QoreNatsKVWatcher.
use module_nats.Common.{
  ℕ, suc, ℤ, pos, String, Bool, true, false, Option, none, some, List, [], ◌∷◌, ◌++◌, if◌then◌else◌,
}
use module_nats.Value.{Value, Fields, get_key_value, or_bool}
use module_nats.Runtime.{
  Status, Arg, text, number, Result, ok, raise, raised, cancelled, failed, or_failed, ◌>>=◌,
}
use module_nats.Poll.{Verdict, finish, timed_out, retry, poll}
use module_nats.KeyValue.Entry.{EntryInfo, nats_kv_entry_to_hash}
use module_nats.KeyValue.Client.{
  Client, Handle, WatchOptions, create, waited, no_entry, received, destroyed, called, log, check,
  kv_error, guarded,
}

-- configure_watch_options; no options are a null pointer
unfoldable pub configure_watch_options : Client → Option Fields → WatchOptions
unfolding get_key_value
configure_watch_options c none = c.default_options
configure_watch_options c (some opts) = record {
  ignore_deletes = or_bool (get_key_value opts "ignore_deletes") c.default_options.ignore_deletes;
  meta_only = or_bool (get_key_value opts "meta_only") c.default_options.meta_only;
  updates_only = or_bool (get_key_value opts "updates_only") c.default_options.updates_only;
}

abbrev flag : Bool → Arg
flag true = number (pos 1)
flag false = number (pos 0)

abbrev pub option_args : WatchOptions → List Arg
option_args o = flag o.ignore_deletes ∷ flag o.meta_only ∷ flag o.updates_only ∷ []

-- A call that makes a watcher, in the process `pid`.
unfoldable pub start_watch :
    Client → ℕ → String → String → List Arg → List Arg → Handle → Result Handle × Handle
unfolding or_failed
start_watch c pid name fmt shown args s =
    let st = c.call_status s.trace name args in
    (or_failed st kv_error fmt shown (create pid true), log (called name args st) s)

unfoldable pub watch : Client → ℕ → String → Option Fields → Handle → Result Handle × Handle
unfolding guarded start_watch configure_watch_options
watch c pid key opts = guarded c (
    start_watch c pid "kvStore_Watch" "failed to watch key '%s'" (text key ∷ [])
      (text key ∷ option_args (configure_watch_options c opts)))

unfoldable pub watch_all : Client → ℕ → Option Fields → Handle → Result Handle × Handle
unfolding guarded start_watch configure_watch_options
watch_all c pid opts = guarded c (
    start_watch c pid "kvStore_WatchAll" "failed to watch all keys" []
      (option_args (configure_watch_options c opts)))

-- The loop that makes the key array; `i` is the index of the first of the values.
unfoldable pub key_array : ℕ → List Value → Result (List Arg)
key_array i [] = ok []
key_array i (Value.str k ∷ vs) = key_array (suc i) vs >>= λ ks. ok (text k ∷ ks)
key_array i (v ∷ vs) =
    raise (raised kv_error "keys list element %zu is not a string" (number (pos i) ∷ []))

-- the call behind the key array
unfoldable pub watch_keys :
    Client → ℕ → WatchOptions → Result (List Arg) → Handle → Result Handle × Handle
unfolding start_watch
watch_keys c pid o (raise e) s = (raise e, s)
watch_keys c pid o (ok ks) s =
    start_watch c pid "kvStore_WatchMulti" "failed to watch multiple keys" [] (ks ++ option_args o)
      s

unfoldable pub watch_multi :
    Client → ℕ → List Value → Option Fields → Handle → Result Handle × Handle
unfolding guarded watch_keys key_array configure_watch_options
watch_multi c pid [] opts =
    guarded c λ s. (raise (raised kv_error "keys list must not be empty" []), s)
watch_multi c pid (v ∷ vs) opts =
    guarded c (watch_keys c pid (configure_watch_options c opts) (key_array 0 (v ∷ vs)))

abbrev pub watch_error : String
watch_error = "NATS-KV-WATCH-ERROR"

abbrev pub invalid_watcher {ℓ} : {A : Type ℓ} → Result A
invalid_watcher = raise (raised watch_error "watcher is not valid" [])

-- `NATS_OK` comes with an entry, or without one: then the loop goes round again, and no time is
-- taken off what remains.
unfoldable pub next_case : Client → Status → Option ℕ → Handle → Verdict (Option EntryInfo) × Handle
unfolding nats_kv_entry_to_hash
next_case c Status.nats_ok (some e) s = (
  finish (nats_kv_entry_to_hash c.set_refuses (c.entry e) >>= λ h. ok (some h)),
  log (destroyed e) (log (received e) s),
)
next_case c Status.nats_ok none s = (retry, log no_entry s)
next_case c Status.nats_timeout e s = (timed_out, s)
next_case c st e s = (finish (raise (failed watch_error st "watcher next failed" [])), s)

unfoldable pub next_wait : Client → ℤ → Handle → Verdict (Option EntryInfo) × Handle
unfolding next_case
next_wait c w s = let (st, e) = c.next s.trace w in next_case c st e (log (waited w st) s)

-- QoreNatsKVWatcher::next
unfoldable pub next : Client → ℕ → ℤ → Handle → Option (Result (Option EntryInfo) × Handle)
unfolding check next_wait poll
next c fuel timeout_ms s =
    if s.is_set
    then (let (stop, t) = check c s in
        elim stop [
          | true ↦ some (raise cancelled, t)
          | false ↦ poll (check c) (next_wait c) c.poll_interval false (ok none) fuel timeout_ms t
        ])
    else some (invalid_watcher, s)

-- QoreNatsKVWatcher::stop, which does not check for cancellation
unfoldable pub stop : Client → Handle → Result (Unit {0}) × Handle
unfolding or_failed
stop c s =
    if s.is_set
    then (let st = c.call_status s.trace "kvWatcher_Stop" [] in
        (
          or_failed st watch_error "failed to stop watcher" [] tt,
          log (called "kvWatcher_Stop" [] st) s,
        ))
    else (invalid_watcher, s)
