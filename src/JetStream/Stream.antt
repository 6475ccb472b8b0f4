-- ===== src/JetStream/Stream.antt =====
-- QoreNatsJetStream::configureStreamConfig and streamInfoToHash of src/QoreNatsJetStream.cpp: the
-- configuration of a stream, from a hash and to one.
use module_nats.Common.{ℕ, ℤ, String, Bool, Option, none, some, List, [], ◌∷◌}
use module_nats.Common.Int.{int64}
use module_nats.Value.{texts, or_string, or_int, or_bool}
use module_nats.Runtime.{Result, done, ok, ◌>>=◌}
use module_nats.Message.{Refuses, set_key}
use module_nats.Hash.{
  Hash, Write, empty, write_all, new_hash, string_write, int_write, millis_write, bool_write,
  strings_write,
}
use module_nats.JetStream.Parts.{
  millis_or, int32_or, or_list, Allocation, unasked, filled, refused, allocate, Configured,
  no_memory, subjects_array,
}

-- jsStreamConfig, as far as it is set or read. A null pointer is `none`; times are in nanoseconds.
pub record StreamConfig : Type 0 where
  pub name : Option String
  pub description : Option String
  pub subjects : Option (List String)
  pub retention : ℤ
  pub max_msgs : ℤ
  pub max_bytes : ℤ
  pub max_age : ℤ
  pub max_msg_size : ℤ
  pub storage : ℤ
  pub replicas : ℤ
  pub discard : ℤ
  pub max_msgs_per_subject : ℤ
  pub max_consumers : ℤ
  pub duplicates : ℤ
  pub sealed : Bool
  pub deny_delete : Bool
  pub deny_purge : Bool
  pub allow_rollup : Bool
  pub no_ack : Bool
  pub allow_direct : Bool
  pub mirror_direct : Bool
  pub discard_new_per_subject : Bool

-- What the hash says for each field but the subjects.
unfoldable pub stream_fields : Hash → Option (List String) → StreamConfig → StreamConfig
stream_fields h subjects c = record {
  name = or_string (h "name") c.name;
  description = or_string (h "description") c.description;
  subjects = subjects;
  retention = or_int (h "retention") c.retention;
  max_msgs = or_int (h "max_msgs") c.max_msgs;
  max_bytes = or_int (h "max_bytes") c.max_bytes;
  max_age = millis_or (h "max_age") c.max_age;
  max_msg_size = int32_or (h "max_msg_size") c.max_msg_size;
  storage = or_int (h "storage") c.storage;
  replicas = int32_or (h "num_replicas") c.replicas;
  discard = or_int (h "discard") c.discard;
  max_msgs_per_subject = or_int (h "max_msgs_per_subject") c.max_msgs_per_subject;
  max_consumers = or_int (h "max_consumers") c.max_consumers;
  duplicates = millis_or (h "duplicate_window_ms") c.duplicates;
  sealed = or_bool (h "sealed") c.sealed;
  deny_delete = or_bool (h "deny_delete") c.deny_delete;
  deny_purge = or_bool (h "deny_purge") c.deny_purge;
  allow_rollup = or_bool (h "allow_rollup") c.allow_rollup;
  no_ack = or_bool (h "no_ack") c.no_ack;
  allow_direct = or_bool (h "allow_direct") c.allow_direct;
  mirror_direct = or_bool (h "mirror_direct") c.mirror_direct;
  discard_new_per_subject = or_bool (h "discard_new_per_subject") c.discard_new_per_subject;
}

-- The allocation of the subjects, and the fields behind them. The name and the description are read
-- before them.
unfoldable pub stream_case : Hash → StreamConfig → Allocation String → Configured StreamConfig
unfolding stream_fields
stream_case h c unasked = record {
  result = done;
  config = stream_fields h c.subjects c;
  arrays = [];
}
stream_case h c (filled ss) = record {
  result = done;
  config = stream_fields h (some ss) c;
  arrays = subjects_array ∷ [];
}
stream_case h c (refused n) = record {
  result = no_memory "memory allocation failed for %d subjects" n;
  config = record c {
    name = or_string (h "name") c.name;
    description = or_string (h "description") c.description;
  };
  arrays = [];
}

-- configureStreamConfig, with `c` for what jsStreamConfig_Init writes. A list has fewer than 2^31
-- elements.
unfoldable pub configure_stream_config : (ℕ → Bool) → StreamConfig → Hash → Configured StreamConfig
unfolding stream_case allocate
configure_stream_config malloc c h =
    stream_case h c (or_list (λ vs. allocate malloc (texts vs)) unasked (h "subjects"))

-- the writes of the sub-hash "config"
unfoldable pub stream_config_writes : StreamConfig → List Write
stream_config_writes c =
    string_write "name" c.name
    ∷ string_write "description" c.description
    ∷ int_write "retention" c.retention
    ∷ int_write "max_msgs" c.max_msgs
    ∷ int_write "max_bytes" c.max_bytes
    ∷ millis_write "max_age" c.max_age
    ∷ int_write "max_msg_size" c.max_msg_size
    ∷ int_write "storage" c.storage
    ∷ int_write "num_replicas" c.replicas
    ∷ int_write "discard" c.discard
    ∷ int_write "max_msgs_per_subject" c.max_msgs_per_subject
    ∷ int_write "max_consumers" c.max_consumers
    ∷ millis_write "duplicate_window_ms" c.duplicates
    ∷ bool_write "sealed" c.sealed
    ∷ bool_write "deny_delete" c.deny_delete
    ∷ bool_write "deny_purge" c.deny_purge
    ∷ bool_write "allow_rollup" c.allow_rollup
    ∷ bool_write "no_ack" c.no_ack
    ∷ bool_write "allow_direct" c.allow_direct
    ∷ bool_write "mirror_direct" c.mirror_direct
    ∷ bool_write "discard_new_per_subject" c.discard_new_per_subject
    ∷ strings_write "subjects" c.subjects
    ∷ []

-- jsStreamInfo, as far as it is read: the configuration, unless it is null, and jsStreamState.
pub record StreamInfo : Type 0 where
  pub config : Option StreamConfig
  pub messages : ℕ
  pub size : ℕ
  pub first_seq : ℕ
  pub last_seq : ℕ
  pub consumers : ℤ

unfoldable pub stream_state_writes : StreamInfo → List Write
unfolding int64
stream_state_writes i =
    int_write "messages" (int64 i.messages)
    ∷ int_write "bytes" (int64 i.size)
    ∷ int_write "first_seq" (int64 i.first_seq)
    ∷ int_write "last_seq" (int64 i.last_seq)
    ∷ int_write "consumer_count" i.consumers
    ∷ []

-- `if (info->Config) { ... }`
unfoldable pub optional_writes {ℓ} : {C : Type ℓ} → (C → List Write) → Option C → List Write
optional_writes f none = []
optional_writes f (some c) = f c

-- A hash<NatsStreamInfo> or a hash<NatsConsumerInfo>: the sub-hash "config", and the other keys.
pub record InfoHash : Type 0 where
  pub config : Hash
  pub state : Hash

-- Both hashes are made, then the configuration is written, and then the hash around it.
unfoldable pub info_to_hash : Refuses → String → String → List Write → List Write → Result InfoHash
unfolding set_key new_hash write_all
info_to_hash refuses info_type config_type config_writes state_writes =
    set_key refuses info_type empty >>= λ h. new_hash refuses config_type config_writes >>= λ cfg.
    set_key refuses "config" h >>= λ h.
    write_all refuses state_writes h >>= λ h. ok (record { config = cfg; state = h })

unfoldable pub stream_info_to_hash : Refuses → StreamInfo → Result InfoHash
unfolding info_to_hash optional_writes stream_config_writes stream_state_writes
stream_info_to_hash refuses i =
    info_to_hash refuses "NatsStreamInfo" "NatsStreamConfig"
      (optional_writes stream_config_writes i.config) (stream_state_writes i)
