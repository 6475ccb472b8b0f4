-- ===== src/JetStream/Account.antt =====
-- QoreNatsJetStream::getAccountInfo and pauseConsumer (src/QoreNatsJetStream.cpp).
use module_nats.Common.{ℤ, pos, String, Option, none, some, List, [], ◌∷◌, if◌then◌else◌}
use module_nats.Common.Int.{ltb_ℤ, int64, uint64}
use module_nats.Time.{Date, date_of_ns}
use module_nats.Runtime.{text, Result, ok, ◌>>=◌}
use module_nats.Message.{Refuses, set_key, set_some}
use module_nats.Hash.{
  Hash, Write, new_hash, write_all, string_write, int_write, millis_write, bool_write,
}
use module_nats.JetStream.Client.{
  Limits, AccountInfo, Pause, js_get_account_info, js_pause_consumer, Client, Context, fetch,
}

unfoldable pub account_writes : AccountInfo → List Write
unfolding int64
account_writes a =
    int_write "memory" (int64 a.memory)
    ∷ int_write "storage" (int64 a.store)
    ∷ int_write "streams" a.streams
    ∷ int_write "consumers" a.consumers
    ∷ string_write "domain" a.domain
    ∷ int_write "api_total" (int64 a.api_total)
    ∷ int_write "api_errors" (int64 a.api_errors)
    ∷ []

unfoldable pub limit_writes : Limits → List Write
limit_writes l =
    int_write "max_memory" l.max_memory
    ∷ int_write "max_storage" l.max_store
    ∷ int_write "max_streams" l.max_streams
    ∷ int_write "max_consumers" l.max_consumers
    ∷ int_write "max_ack_pending" l.max_ack_pending
    ∷ int_write "memory_max_stream_bytes" l.memory_max_stream_bytes
    ∷ int_write "storage_max_stream_bytes" l.store_max_stream_bytes
    ∷ bool_write "max_bytes_required" l.max_bytes_required
    ∷ []

-- A hash<NatsJSAccountInfo>: its key "limits", and the others.
pub record AccountHash : Type 0 where
  pub info : Hash
  pub limits : Hash

unfoldable pub account_to_hash : Refuses → AccountInfo → Result AccountHash
unfolding new_hash account_writes limit_writes set_key
account_to_hash refuses a = do
  h ← new_hash refuses "NatsJSAccountInfo" (account_writes a)
  l ← new_hash refuses "NatsJSAccountLimits" (limit_writes a.limits)
  set_key refuses "limits" (record { info = h; limits = l })

unfoldable pub get_account_info : Client → Context → Result AccountHash × Context
unfolding fetch account_to_hash
get_account_info c =
    fetch c js_get_account_info "failed to get account info" []
      λ n. account_to_hash c.set_refuses (c.account_info n)

-- A hash<NatsJSConsumerPauseResponse>: its key "pause_until", which is a date, and the others.
pub record PauseHash : Type 0 where
  pub fields : Hash
  pub pause_until : Option Date

-- `if (cpr->PauseRemaining > 0)`
unfoldable pub remaining_writes : ℤ → List Write
remaining_writes n = if ltb_ℤ (pos 0) n then millis_write "pause_remaining_ms" n ∷ [] else []

unfoldable pub pause_to_hash : Refuses → Pause → Result PauseHash
unfolding new_hash write_all remaining_writes set_some date_of_ns
pause_to_hash refuses p = do
  h ← new_hash refuses "NatsJSConsumerPauseResponse" (bool_write "paused" p.paused ∷ [])
  d ← set_some refuses "pause_until" (date_of_ns p.pause_until) some none
  h ← write_all refuses (remaining_writes p.pause_remaining) h
  ok (record { fields = h; pause_until = d })

-- The time is in nanoseconds since the epoch.
unfoldable pub pause_consumer : Client → String → String → ℤ → Context → Result PauseHash × Context
unfolding fetch pause_to_hash uint64
pause_consumer c stream consumer until =
    fetch c (js_pause_consumer stream consumer (uint64 until))
      "failed to pause consumer '%s' on stream '%s'" (text consumer ∷ text stream ∷ [])
      λ n. pause_to_hash c.set_refuses (c.pause n)
