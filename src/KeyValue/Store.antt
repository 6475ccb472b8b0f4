-- ===== src/KeyValue/Store.antt =====
-- The methods of QoreNatsKVStore.
use module_nats.Common.{ℕ, ℤ, pos, String, Option, none, some, List, [], ◌∷◌, ◌/◌, if◌then◌else◌}
use module_nats.Common.Int.{int64}
use module_nats.Runtime.{Status, Arg, text, number, Result, ok, raise, failed, or_failed, ◌>>=◌}
use module_nats.Message.{Refuses, set_key, set_some}
use module_nats.KeyValue.Entry.{EntryInfo, nats_kv_entry_to_hash}
use module_nats.KeyValue.Client.{
  Client, Handle, BucketStatus, received, destroyed, called, log, kv_error, guarded,
}

-- A call that answers with the revision that it wrote, which is returned as an int64. (The part of a
-- method behind its two guards is a definition of its own, here and below.)
unfoldable pub write_rest :
    Client → String → String → List Arg → List Arg → Handle → Result ℤ × Handle
unfolding or_failed int64
write_rest c call fmt shown args s =
    let (st, rev) = c.write s.trace call args in
    (or_failed st kv_error fmt shown (int64 rev), log (called call args st) s)

unfoldable pub write : Client → String → String → List Arg → List Arg → Handle → Result ℤ × Handle
unfolding guarded write_rest
write c call fmt shown args = guarded c (write_rest c call fmt shown args)

-- The bytes of a value, as arguments.
abbrev pub bytes : List ℕ → List Arg
bytes [] = []
bytes (b ∷ bs) = number (pos b) ∷ bytes bs

unfoldable pub put : Client → String → List ℕ → Handle → Result ℤ × Handle
unfolding write
put c key value =
    write c "kvStore_Put" "failed to put key '%s'" (text key ∷ []) (text key ∷ bytes value)

unfoldable pub put_string : Client → String → String → Handle → Result ℤ × Handle
unfolding write
put_string c key value =
    write c "kvStore_PutString" "failed to put string key '%s'" (text key ∷ [])
      (text key ∷ text value ∷ [])

unfoldable pub create_key : Client → String → List ℕ → Handle → Result ℤ × Handle
unfolding write
create_key c key value =
    write c "kvStore_Create" "failed to create key '%s'" (text key ∷ []) (text key ∷ bytes value)

unfoldable pub update : Client → String → List ℕ → ℕ → Handle → Result ℤ × Handle
unfolding write
update c key value revision =
    write c "kvStore_Update" "failed to update key '%s' at revision %llu"
      (text key ∷ number (pos revision) ∷ []) (text key ∷ number (pos revision) ∷ bytes value)

-- NATS_NOT_FOUND is no error: nothing is returned.
unfoldable pub get_case : Client → String → Status → ℕ → Handle → Result (Option EntryInfo) × Handle
unfolding nats_kv_entry_to_hash
get_case c key Status.nats_ok e s = (
  nats_kv_entry_to_hash c.set_refuses (c.entry e) >>= λ h. ok (some h),
  log (destroyed e) (log (received e) s),
)
get_case c key Status.nats_not_found e s = (ok none, s)
get_case c key st e s = (raise (failed kv_error st "failed to get key '%s'" (text key ∷ [])), s)

unfoldable pub get_rest : Client → String → Handle → Result (Option EntryInfo) × Handle
unfolding get_case
get_rest c key s =
    let (st, e) = c.get s.trace key in
    get_case c key st e (log (called "kvStore_Get" (text key ∷ []) st) s)

unfoldable pub get : Client → String → Handle → Result (Option EntryInfo) × Handle
unfolding guarded get_rest
get c key = guarded c (get_rest c key)

-- A call that answers with a status alone.
unfoldable pub call_rest :
    Client → String → String → List Arg → List Arg → Handle → Result (Unit {0}) × Handle
unfolding or_failed
call_rest c name fmt shown args s =
    let st = c.call_status s.trace name args in
    (or_failed st kv_error fmt shown tt, log (called name args st) s)

unfoldable pub call :
    Client → String → String → List Arg → List Arg → Handle → Result (Unit {0}) × Handle
unfolding guarded call_rest
call c name fmt shown args = guarded c (call_rest c name fmt shown args)

unfoldable pub del : Client → String → Handle → Result (Unit {0}) × Handle
unfolding call
del c key = call c "kvStore_Delete" "failed to delete key '%s'" (text key ∷ []) (text key ∷ [])

unfoldable pub purge : Client → String → Handle → Result (Unit {0}) × Handle
unfolding call
purge c key = call c "kvStore_Purge" "failed to purge key '%s'" (text key ∷ []) (text key ∷ [])

-- The keys are copied to a list; no key is an empty list.
unfoldable pub keys_case : Status → List String → Result (List String)
keys_case Status.nats_ok ks = ok ks
keys_case Status.nats_not_found ks = ok []
keys_case st ks = raise (failed kv_error st "failed to list keys" [])

unfoldable pub keys_rest : Client → Handle → Result (List String) × Handle
unfolding keys_case
keys_rest c s =
    let (st, ks) = c.keys s.trace in (keys_case st ks, log (called "kvStore_Keys" [] st) s)

unfoldable pub keys : Client → Handle → Result (List String) × Handle
unfolding guarded keys_rest
keys c = guarded c (keys_rest c)

-- kvEntryList_Destroy, and the list that kvStore_History hands over
unfoldable pub destroy_entries : List ℕ → Handle → Handle
destroy_entries [] s = s
destroy_entries (e ∷ es) s = destroy_entries es (log (destroyed e) s)

unfoldable pub receive_entries : List ℕ → Handle → Handle
receive_entries [] s = s
receive_entries (e ∷ es) s = receive_entries es (log (received e) s)

-- The loop over the entries.
unfoldable pub entries_to_hashes : Client → List ℕ → Result (List EntryInfo)
unfolding nats_kv_entry_to_hash
entries_to_hashes c [] = ok []
entries_to_hashes c (e ∷ es) = do
  h ← nats_kv_entry_to_hash c.set_refuses (c.entry e)
  hs ← entries_to_hashes c es
  ok (h ∷ hs)

unfoldable pub history_case :
    Client → String → Status → List ℕ → Handle → Result (List EntryInfo) × Handle
unfolding entries_to_hashes destroy_entries receive_entries
history_case c key Status.nats_ok es s =
    (entries_to_hashes c es, destroy_entries es (receive_entries es s))
history_case c key Status.nats_not_found es s = (ok [], s)
history_case c key st es s =
    (raise (failed kv_error st "failed to get history for key '%s'" (text key ∷ [])), s)

unfoldable pub history_rest : Client → String → Handle → Result (List EntryInfo) × Handle
unfolding history_case
history_rest c key s =
    let (st, es) = c.history s.trace key in
    history_case c key st es (log (called "kvStore_History" (text key ∷ []) st) s)

unfoldable pub history : Client → String → Handle → Result (List EntryInfo) × Handle
unfolding guarded history_rest
history c key = guarded c (history_rest c key)

unfoldable pub bucket_name : Client → Handle → String
bucket_name c s = if s.is_set then c.bucket else ""

-- `hash<NatsKVBucketStatus>`
pub record BucketInfo : Type 0 where
  pub bucket : Option String
  pub values : ℤ
  pub history : ℤ
  pub ttl_ms : ℕ
  pub replicas : ℤ
  pub bytes : ℤ

abbrev bucket_numbers : BucketStatus → BucketInfo
bucket_numbers b = record {
  bucket = none;
  values = int64 b.values;
  history = b.history;
  ttl_ms = b.ttl / 1000000;
  replicas = b.replicas;
  bytes = int64 b.bytes;
}

unfoldable pub bucket_to_hash : Refuses → BucketStatus → Result BucketInfo
unfolding set_key set_some
bucket_to_hash refuses b = do
  h ← set_key refuses "NatsKVBucketStatus" (bucket_numbers b)
  h ← set_some refuses "bucket" b.bucket (λ v. record h { bucket = some v }) h
  h ← set_key refuses "values" h
  h ← set_key refuses "history" h
  h ← set_key refuses "ttl_ms" h
  h ← set_key refuses "replicas" h
  set_key refuses "bytes" h

unfoldable pub status_rest : Client → Handle → Result BucketInfo × Handle
unfolding or_failed bucket_to_hash
status_rest c s =
    let (st, b) = c.status s.trace in
    (
      or_failed st kv_error "failed to get bucket status" [] b >>= bucket_to_hash c.set_refuses,
      log (called "kvStore_Status" [] st) s,
    )

unfoldable pub status : Client → Handle → Result BucketInfo × Handle
unfolding guarded status_rest
status c = guarded c (status_rest c)
