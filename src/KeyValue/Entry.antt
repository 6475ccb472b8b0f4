-- ===== src/KeyValue/Entry.antt =====
-- nats_kv_entry_to_hash: an entry of a bucket as a Qore hash.
use module_nats.Common.{ℕ, ℤ, String, Option, none, some, List}
use module_nats.Common.Int.{int64}
use module_nats.Time.{Date, date_of_ns}
use module_nats.Runtime.{Result, ◌>>=◌}
use module_nats.Message.{Refuses, set_key, set_some, non_empty}

-- What the C client answers about an entry; the creation time is in nanoseconds.
pub record Entry : Type 0 where
  pub bucket : Option String
  pub key : Option String
  pub value : Option (List ℕ)
  pub revision : ℕ
  pub created : ℤ
  pub operation : ℤ

-- `hash<NatsKVEntry>`; a key that is not set is `none`.
pub record EntryInfo : Type 0 where
  pub bucket : Option String
  pub key : Option String
  pub value : Option (List ℕ)
  pub revision : Option ℤ
  pub created : Option Date
  pub operation : Option ℤ

abbrev pub empty_entry : EntryInfo
empty_entry = record {
  bucket = none;
  key = none;
  value = none;
  revision = none;
  created = none;
  operation = none;
}

unfoldable pub nats_kv_entry_to_hash : Refuses → Entry → Result EntryInfo
unfolding set_key set_some non_empty date_of_ns int64
nats_kv_entry_to_hash refuses e = do
  h ← set_key refuses "NatsKVEntry" empty_entry
  h ← set_some refuses "bucket" e.bucket (λ v. record h { bucket = some v }) h
  h ← set_some refuses "key" e.key (λ v. record h { key = some v }) h
  h ← set_some refuses "value" (non_empty e.value) (λ v. record h { value = some v }) h
  h ← set_key refuses "revision" (record h { revision = some (int64 e.revision) })
  h ← set_some refuses "created" (date_of_ns e.created) (λ v. record h { created = some v }) h
  set_key refuses "operation" (record h { operation = some e.operation })
