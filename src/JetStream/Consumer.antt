-- ===== src/JetStream/Consumer.antt =====
-- QoreNatsJetStream::configureConsumerConfig and consumerInfoToHash of src/QoreNatsJetStream.cpp: the
-- configuration of a consumer, from a hash and to one.
use module_nats.Common.{ℕ, ℤ, String, Bool, Option, some, List, [], ◌∷◌}
use module_nats.Common.Int.{int64, uint64}
use module_nats.Value.{texts, Value, or_string, or_int, or_bool}
use module_nats.Runtime.{Result, done}
use module_nats.Message.{Refuses}
use module_nats.Hash.{Hash, Write, string_write, int_write, millis_write, bool_write}
use module_nats.JetStream.Parts.{
  millis_or, int32_or, or_list, nanos, Allocation, unasked, filled, refused, allocate_some, Array,
  Configured, no_memory, back_off_array, filter_array,
}
use module_nats.JetStream.Stream.{InfoHash, info_to_hash, optional_writes}

-- jsConsumerConfig, as far as it is set, read or documented (hash<NatsConsumerConfig>). A null pointer is `none`; times are in nanoseconds.
pub record ConsumerConfig : Type 0 where
  pub durable : Option String
  pub deliver_subject : Option String
  pub deliver_group : Option String
  pub description : Option String
  pub ack_policy : ℤ
  pub ack_wait : ℤ
  pub deliver_policy : ℤ
  pub opt_start_seq : ℕ
  pub opt_start_time : ℤ  -- of which neither conversion says anything
  pub replay_policy : ℤ
  pub filter_subject : Option String
  pub max_deliver : ℤ
  pub max_ack_pending : ℤ
  pub name : Option String
  pub back_off : Option (List ℤ)
  pub rate_limit : ℕ
  pub flow_control : Bool
  pub heartbeat : ℤ
  pub headers_only : Bool
  pub max_request_batch : ℤ
  pub max_request_expires : ℤ
  pub max_request_max_bytes : ℤ
  pub inactive_threshold : ℤ
  pub replicas : ℤ
  pub memory_storage : Bool
  pub filter_subjects : Option (List String)
  pub sample_frequency : Option String

-- `if (v.getType() == NT_INT) x = (uint64_t)v.getAsBigInt();`
unfoldable pub uint64_or : Value → ℕ → ℕ
unfolding uint64
uint64_or (Value.int n) d = uint64 n
uint64_or _ d = d

-- The fields in front of the intervals of "back_off", ...
unfoldable pub fields_before : Hash → ConsumerConfig → ConsumerConfig
unfolding uint64_or
fields_before h c = record c {
  durable = or_string (h "durable_name") c.durable;
  deliver_subject = or_string (h "deliver_subject") c.deliver_subject;
  deliver_group = or_string (h "deliver_group") c.deliver_group;
  description = or_string (h "description") c.description;
  ack_policy = or_int (h "ack_policy") c.ack_policy;
  ack_wait = millis_or (h "ack_wait") c.ack_wait;
  deliver_policy = or_int (h "deliver_policy") c.deliver_policy;
  opt_start_seq = uint64_or (h "opt_start_seq") c.opt_start_seq;
  replay_policy = or_int (h "replay_policy") c.replay_policy;
  filter_subject = or_string (h "filter_subject") c.filter_subject;
  max_deliver = int32_or (h "max_deliver") c.max_deliver;
  max_ack_pending = int32_or (h "max_ack_pending") c.max_ack_pending;
  name = or_string (h "name") c.name;
}

-- ... those between them and the filter subjects, ...
unfoldable pub fields_between : Hash → ConsumerConfig → ConsumerConfig
unfolding uint64_or
fields_between h c = record c {
  rate_limit = uint64_or (h "rate_limit_bps") c.rate_limit;
  flow_control = or_bool (h "flow_control") c.flow_control;
  heartbeat = millis_or (h "heartbeat_ms") c.heartbeat;
  headers_only = or_bool (h "headers_only") c.headers_only;
  max_request_batch = or_int (h "max_request_batch") c.max_request_batch;
  max_request_expires = millis_or (h "max_request_expires_ms") c.max_request_expires;
  max_request_max_bytes = or_int (h "max_request_max_bytes") c.max_request_max_bytes;
  inactive_threshold = millis_or (h "inactive_threshold_ms") c.inactive_threshold;
  replicas = or_int (h "num_replicas") c.replicas;
  memory_storage = or_bool (h "memory_storage") c.memory_storage;
}

-- ... and the one behind the filter subjects.
unfoldable pub fields_after : Hash → ConsumerConfig → ConsumerConfig
fields_after h c = record c {
  sample_frequency = or_string (h "sample_frequency") c.sample_frequency;
}

-- the filter subjects, with the arrays that are allocated already
unfoldable pub filter_case :
    Hash → ConsumerConfig → List Array → Allocation String → Configured ConsumerConfig
unfolding fields_after
filter_case h c held unasked = record { result = done; config = fields_after h c; arrays = held }
filter_case h c held (filled ss) = record {
  result = done;
  config = fields_after h (record c { filter_subjects = some ss });
  arrays = filter_array ∷ held;
}
filter_case h c held (refused n) = record {
  result = no_memory "memory allocation failed for %d filter subjects" n;
  config = c;
  arrays = held;
}

unfoldable pub configure_filters :
    (ℕ → Bool) → Hash → ConsumerConfig → List Array → Configured ConsumerConfig
unfolding filter_case fields_between allocate_some
configure_filters malloc h c held =
    filter_case h (fields_between h c) held
      (or_list (λ vs. allocate_some malloc (texts vs)) unasked (h "filter_subjects"))

-- the intervals of "back_off"
unfoldable pub back_off_case :
    (ℕ → Bool) → Hash → ConsumerConfig → Allocation ℤ → Configured ConsumerConfig
unfolding configure_filters
back_off_case malloc h c unasked = configure_filters malloc h c []
back_off_case malloc h c (filled ts) =
    configure_filters malloc h (record c { back_off = some ts }) (back_off_array ∷ [])
back_off_case malloc h c (refused n) = record {
  result = no_memory "memory allocation failed for %d back_off entries" n;
  config = c;
  arrays = [];
}

-- configureConsumerConfig, with `c` for what jsConsumerConfig_Init writes. A list has fewer than 2^31
-- elements.
unfoldable pub configure_consumer_config :
    (ℕ → Bool) → ConsumerConfig → Hash → Configured ConsumerConfig
unfolding back_off_case fields_before allocate_some
configure_consumer_config malloc c h =
    back_off_case malloc h (fields_before h c)
      (or_list (λ vs. allocate_some malloc (nanos vs)) unasked (h "back_off"))

-- the writes of the sub-hash "config"
unfoldable pub consumer_config_writes : ConsumerConfig → List Write
unfolding int64
consumer_config_writes c =
    string_write "durable_name" c.durable
    ∷ string_write "deliver_subject" c.deliver_subject
    ∷ string_write "deliver_group" c.deliver_group
    ∷ string_write "description" c.description
    ∷ int_write "ack_policy" c.ack_policy
    ∷ millis_write "ack_wait" c.ack_wait
    ∷ int_write "deliver_policy" c.deliver_policy
    ∷ int_write "replay_policy" c.replay_policy
    ∷ string_write "filter_subject" c.filter_subject
    ∷ int_write "max_deliver" c.max_deliver
    ∷ int_write "max_ack_pending" c.max_ack_pending
    ∷ string_write "name" c.name
    ∷ int_write "rate_limit_bps" (int64 c.rate_limit)
    ∷ bool_write "flow_control" c.flow_control
    ∷ millis_write "heartbeat_ms" c.heartbeat
    ∷ bool_write "headers_only" c.headers_only
    ∷ int_write "max_request_batch" c.max_request_batch
    ∷ millis_write "max_request_expires_ms" c.max_request_expires
    ∷ int_write "max_request_max_bytes" c.max_request_max_bytes
    ∷ millis_write "inactive_threshold_ms" c.inactive_threshold
    ∷ int_write "num_replicas" c.replicas
    ∷ bool_write "memory_storage" c.memory_storage
    ∷ string_write "sample_frequency" c.sample_frequency
    ∷ []

-- jsConsumerInfo, as far as it is read: the configuration, unless it is null, and the counters.
pub record ConsumerInfo : Type 0 where
  pub config : Option ConsumerConfig
  pub delivered : ℕ
  pub ack_floor : ℕ
  pub pending : ℕ
  pub redelivered : ℤ
  pub waiting : ℤ

unfoldable pub consumer_state_writes : ConsumerInfo → List Write
unfolding int64
consumer_state_writes i =
    int_write "delivered" (int64 i.delivered)
    ∷ int_write "ack_pending" (int64 i.ack_floor)
    ∷ int_write "num_pending" (int64 i.pending)
    ∷ int_write "redelivered" i.redelivered
    ∷ int_write "waiting" i.waiting
    ∷ []

unfoldable pub consumer_info_to_hash : Refuses → ConsumerInfo → Result InfoHash
unfolding info_to_hash optional_writes consumer_config_writes consumer_state_writes
consumer_info_to_hash refuses i =
    info_to_hash refuses "NatsConsumerInfo" "NatsConsumerConfig"
      (optional_writes consumer_config_writes i.config) (consumer_state_writes i)
