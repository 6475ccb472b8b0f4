-- ===== src/Subscription/Queries.antt =====
-- isValid, getPendingMsgs, getPending, getDelivered, getDropped, getSubscriptionStats, getSubject,
-- getId, getMetadata: what the C client reports about the subscription and its last message. None
-- of them changes the object.
use module_nats.Common.{ℤ, pos, negsuc, String, Bool, Option, none, some, [], ◌&&◌, if◌then◌else◌}
use module_nats.Common.Int.{int64}
use module_nats.Time.{Date, date_of_ns}
use module_nats.Runtime.{Status, Result, ok, or_failed, ◌>>=◌, ◌>>◌}
use module_nats.Message.{Refuses, set_key, set_some}
use module_nats.Subscription.Client.{
  Client, Subscription, Stats, MetaData, subscribe_error, invalid,
}

unfoldable pub is_valid : Client → Subscription → Bool
is_valid c s = s.sub && c.is_valid s.trace

-- A query behind the guard on the subscription pointer.
unfoldable pub query {ℓ} : {A : Type ℓ} → String → Subscription → Status × A → Result A
unfolding or_failed
query fmt s (st, a) = if s.sub then or_failed st subscribe_error fmt [] a else invalid

pub get_pending_msgs : Client → Subscription → Result ℤ
unfolding query
get_pending_msgs c s =
    let (st, msgs, bytes) = c.get_pending s.trace in
    query "failed to get pending count" s (st, msgs)

pub record Pending : Type 0 where
  pub msgs : ℤ
  pub bytes : ℤ

pub get_pending : Client → Subscription → Result Pending
unfolding query set_key
get_pending c s = do
  let (st, msgs, bytes) = c.get_pending s.trace
  (msgs, bytes) ← query "failed to get pending counts" s (st, (msgs, bytes))
  set_key c.set_refuses "msgs" tt
  set_key c.set_refuses "bytes" (record { msgs = msgs; bytes = bytes })

pub get_delivered : Client → Subscription → Result ℤ
unfolding query
get_delivered c s = query "failed to get delivered count" s (c.get_delivered s.trace)

pub get_dropped : Client → Subscription → Result ℤ
unfolding query
get_dropped c s = query "failed to get dropped count" s (c.get_dropped s.trace)

unfoldable pub get_subject : Client → Subscription → Option String
get_subject c s = if s.sub then c.get_subject else some ""

unfoldable pub get_id : Client → Subscription → ℤ
get_id c s = if s.sub then c.get_id else negsuc 0

-- `hash<NatsSubscriptionStats>`
pub record SubscriptionStats : Type 0 where
  pub subject : Option String
  pub id : ℤ
  pub stats : Stats

abbrev empty_stats : SubscriptionStats
empty_stats = record {
  subject = none;
  id = pos 0;
  stats = record {
    pending_msgs = pos 0;
    pending_bytes = pos 0;
    delivered_msgs = pos 0;
    dropped_msgs = pos 0;
  };
}

pub get_subscription_stats : Client → Subscription → Result SubscriptionStats
unfolding query set_key set_some
get_subscription_stats c s = do
  st ← query "failed to get subscription stats" s (c.get_stats s.trace)
  h ← set_key c.set_refuses "NatsSubscriptionStats" (record empty_stats { stats = st })
  h ← set_some c.set_refuses "subject" c.get_subject (λ v. record h { subject = some v }) h
  h ← set_key c.set_refuses "id" (record h { id = c.get_id })
  h ← set_key c.set_refuses "pending_msgs" h
  h ← set_key c.set_refuses "pending_bytes" h
  h ← set_key c.set_refuses "delivered_msgs" h
  set_key c.set_refuses "dropped_msgs" h

-- `hash<NatsJSMsgMetadata>`
pub record MsgMetadata : Type 0 where
  pub domain : Option String
  pub stream : Option String
  pub consumer : Option String
  pub num_delivered : ℤ
  pub stream_seq : ℤ
  pub consumer_seq : ℤ
  pub num_pending : ℤ
  pub timestamp : Option Date

abbrev pub counters : MetaData → MsgMetadata
counters m = record {
  domain = none;
  stream = none;
  consumer = none;
  num_delivered = int64 m.num_delivered;
  stream_seq = int64 m.stream_seq;
  consumer_seq = int64 m.consumer_seq;
  num_pending = int64 m.num_pending;
  timestamp = none;
}

-- The hash is made of the metadata; the checks between the writes end it at the first refused key.
unfoldable pub metadata_to_hash : Refuses → MetaData → Result MsgMetadata
unfolding set_key set_some date_of_ns
metadata_to_hash refuses m = do
  h ← set_key refuses "NatsJSMsgMetadata" (counters m)
  h ← set_some refuses "domain" m.domain (λ v. record h { domain = some v }) h
  h ← set_some refuses "stream" m.stream (λ v. record h { stream = some v }) h
  h ← set_some refuses "consumer" m.consumer (λ v. record h { consumer = some v }) h
  h ← set_key refuses "num_delivered" h
  h ← set_key refuses "stream_seq" h
  h ← set_key refuses "consumer_seq" h
  h ← set_key refuses "num_pending" h
  set_some refuses "timestamp" (date_of_ns m.timestamp) (λ v. record h { timestamp = some v }) h

-- no JetStream message, or no metadata: not an error
unfoldable pub metadata_case : Refuses → Status × MetaData → Result (Option MsgMetadata)
unfolding metadata_to_hash
metadata_case refuses (Status.nats_ok, m) = metadata_to_hash refuses m >>= λ h. ok (some h)
metadata_case refuses (_, m) = ok none

unfoldable pub get_metadata : Client → Subscription → Result (Option MsgMetadata)
unfolding metadata_case
get_metadata c s = elim s.last_msg [
  | none ↦ ok none
  | some m ↦ metadata_case c.set_refuses (c.metadata m)
]
