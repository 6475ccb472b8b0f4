-- ===== src/JetStream/Tests.antt =====
-- Runs of the model of src/QoreNatsJetStream.cpp on concrete answers of the C client.
use module_nats.Common.{
  ℕ, pos, negsuc, ◌≡◌, refl, Bool, true, false, none, some, [], ◌∷◌, arith, length, ltb,
  if◌then◌else◌,
}
use module_nats.Common.Int.{times}
use text.Mathlib.Text.{◌==◌}
use module_nats.Runtime.{Status, ok, done, set_failed}
use module_nats.Message.{Refuses}
use module_nats.Hash.{Hash, empty, write, written}
use module_nats.JetStream.Parts.{subjects_array}
use module_nats.JetStream.Stream.{
  stream_fields, StreamConfig, StreamInfo, InfoHash, stream_config_writes, stream_state_writes,
  configure_stream_config, stream_info_to_hash,
}
use module_nats.JetStream.Consumer.{
  ConsumerConfig, ConsumerInfo, configure_consumer_config, consumer_config_writes,
  consumer_state_writes, consumer_info_to_hash,
}
use module_nats.JetStream.Client.{PubAck, Client, Context, create}
use module_nats.JetStream.Streams.{add_stream}
use module_nats.JetStream.Publish.{pub_ack_writes, pub_ack_each, publish, set_each}
use module_nats.JetStream.Memory.{array, object, taken, given}
use module_nats.JetStream.Sessions.{
  Session, adds_stream, publishes, opened, later, Session-Balanced,
}
use module_nats.JetStream.RoundTrip.{configure_stream_config-stream_info_to_hash}
use module_nats.JetStream.ConsumerTrip.{configure_consumer_config-consumer_info_to_hash}

abbrev no_stream : StreamConfig
no_stream = record {
  name = none;
  description = none;
  subjects = none;
  retention = pos 0;
  max_msgs = pos 0;
  max_bytes = pos 0;
  max_age = pos 0;
  max_msg_size = pos 0;
  storage = pos 0;
  replicas = pos 0;
  discard = pos 0;
  max_msgs_per_subject = pos 0;
  max_consumers = pos 0;
  duplicates = pos 0;
  sealed = false;
  deny_delete = false;
  deny_purge = false;
  allow_rollup = false;
  no_ack = false;
  allow_direct = false;
  mirror_direct = false;
  discard_new_per_subject = false;
}

abbrev orders : StreamConfig
orders = record {
  name = some "ORDERS";
  description = some "ORDERS";
  subjects = some ("orders.*" ∷ "refunds" ∷ []);
  retention = negsuc 0;
  max_msgs = negsuc 0;
  max_bytes = negsuc 0;
  max_age = pos 5000000;
  max_msg_size = pos 3;
  storage = negsuc 0;
  replicas = pos 3;
  discard = negsuc 0;
  max_msgs_per_subject = negsuc 0;
  max_consumers = negsuc 0;
  duplicates = pos 5000000;
  sealed = true;
  deny_delete = true;
  deny_purge = true;
  allow_rollup = true;
  no_ack = true;
  allow_direct = true;
  mirror_direct = true;
  discard_new_per_subject = true;
}

abbrev no_consumer : ConsumerConfig
no_consumer = record {
  durable = none;
  deliver_subject = none;
  deliver_group = none;
  description = none;
  ack_policy = pos 0;
  ack_wait = pos 0;
  deliver_policy = pos 0;
  opt_start_seq = 0;
  opt_start_time = pos 0;
  replay_policy = pos 0;
  filter_subject = none;
  max_deliver = pos 0;
  max_ack_pending = pos 0;
  name = none;
  back_off = none;
  rate_limit = 0;
  flow_control = false;
  heartbeat = pos 0;
  headers_only = false;
  max_request_batch = pos 0;
  max_request_expires = pos 0;
  max_request_max_bytes = pos 0;
  inactive_threshold = pos 0;
  replicas = pos 0;
  memory_storage = false;
  filter_subjects = none;
  sample_frequency = none;
}

abbrev worker : ConsumerConfig
worker = record {
  durable = some "worker";
  deliver_subject = some "worker";
  deliver_group = some "worker";
  description = some "worker";
  ack_policy = negsuc 0;
  ack_wait = pos 30000000;
  deliver_policy = negsuc 0;
  opt_start_seq = 7;
  opt_start_time = pos 1700000000000000000;
  replay_policy = negsuc 0;
  filter_subject = some "worker";
  max_deliver = negsuc 0;
  max_ack_pending = negsuc 0;
  name = some "worker";
  back_off = some (pos 1000000 ∷ []);
  rate_limit = 7;
  flow_control = true;
  heartbeat = pos 30000000;
  headers_only = true;
  max_request_batch = negsuc 0;
  max_request_expires = pos 30000000;
  max_request_max_bytes = negsuc 0;
  inactive_threshold = pos 30000000;
  replicas = negsuc 0;
  memory_storage = true;
  filter_subjects = some ("a" ∷ "b" ∷ []);
  sample_frequency = some "worker";
}

abbrev accepts : Refuses
accepts k = false

abbrev room : ℕ → Bool
room n = true

abbrev orders_info : StreamInfo
orders_info = record {
  config = some orders;
  messages = 10;
  size = 400;
  first_seq = 1;
  last_seq = 10;
  consumers = pos 1;
}

abbrev worker_info : ConsumerInfo
worker_info = record {
  config = some worker;
  delivered = 9;
  ack_floor = 8;
  pending = 1;
  redelivered = pos 0;
  waiting = pos 0;
}

abbrev orders_hash : InfoHash
orders_hash = record {
  config = written (stream_config_writes orders) empty;
  state = written (stream_state_writes orders_info) empty;
}

abbrev worker_hash : InfoHash
worker_hash = record {
  config = written (consumer_config_writes worker) empty;
  state = written (consumer_state_writes worker_info) empty;
}

orders_to_hash : stream_info_to_hash accepts orders_info ≡ ok orders_hash
unfolding stream_info_to_hash written write
orders_to_hash = refl

worker_to_hash : consumer_info_to_hash accepts worker_info ≡ ok worker_hash
unfolding consumer_info_to_hash written write
worker_to_hash = refl

five : pos 5000000 ≡ times (pos 5) 1000000
unfolding times
five = refl

thirty : pos 30000000 ≡ times (pos 30) 1000000
unfolding times
thirty = refl

some_ne_nil : orders.subjects ≡ some [] → ⊥
some_ne_nil e = cc

stream_example :
    ((configure_stream_config room no_stream orders_hash.config).result ≡ done)
    × ((configure_stream_config room no_stream orders_hash.config).config ≡ orders)
stream_example =
    configure_stream_config-stream_info_to_hash room accepts no_stream orders orders_info
      orders_hash (λ n. refl) (refl, refl, refl)
      ((pos 5, five), (pos 5, five), omega arith, omega arith, some_ne_nil) refl orders_to_hash

consumer_example :
    ((configure_consumer_config room no_consumer worker_hash.config).result ≡ done)
    × ((configure_consumer_config room no_consumer worker_hash.config).config ≡ record worker {
      opt_start_seq = 0;
      opt_start_time = pos 0;
      back_off = none;
      filter_subjects = none;
    })
consumer_example =
    configure_consumer_config-consumer_info_to_hash room accepts no_consumer worker worker_info
      worker_hash (refl, refl, refl, refl, refl, refl, refl)
      (
        (pos 30, thirty),
        (pos 30, thirty),
        (pos 30, thirty),
        (pos 30, thirty),
        omega arith,
        omega arith,
        omega arith,
      )
      refl worker_to_hash

abbrev ack : PubAck
ack = record { stream = some "ORDERS"; sequence = 11; duplicate = false }

abbrev refuses_sequence : Refuses
refuses_sequence k = k == "sequence"

-- An exception is pending when publish returns this hash.
pending : (pub_ack_each refuses_sequence ack).1 ≡ set_failed "sequence" ∷ []
unfolding pub_ack_each
pending = refl

abbrev ack_hash : Hash
ack_hash = written (pub_ack_writes ack) empty

-- A C client whose first call fails.
abbrev server : Client
server = record {
  check_cancel = λ t. false;
  malloc = room;
  answer = λ t q.
      if ltb (length t) 3 then (Status.nats_timeout, pos 0, 0) else (Status.nats_ok, pos 0, 4);
  stream_default = no_stream;
  consumer_default = no_consumer;
  pub_default = record {
    max_wait = pos 0;
    msg_id = none;
    expect_stream = none;
    expect_last_msg_id = none;
    expect_last_seq = 0;
    expect_last_subject_seq = 0;
    expect_no_message = false;
  };
  sub_default = record {
    stream = none;
    consumer = none;
    queue = none;
    manual_ack = false;
    ordered = false;
    durable = none;
  };
  stream_info = λ n. orders_info;
  stream_list = λ n. orders_info ∷ [];
  consumer_info = λ n. worker_info;
  consumer_list = λ n. worker_info ∷ [];
  name_list = λ n. "ORDERS" ∷ [];
  pub_ack = λ n. ack;
  account_info = λ n. record {
    memory = 0;
    store = 0;
    streams = pos 1;
    consumers = pos 1;
    domain = none;
    api_total = 5;
    api_errors = 0;
    limits = record {
      max_memory = negsuc 0;
      max_store = negsuc 0;
      max_streams = negsuc 0;
      max_consumers = negsuc 0;
      max_ack_pending = negsuc 0;
      memory_max_stream_bytes = pos 0;
      store_max_stream_bytes = pos 0;
      max_bytes_required = false;
    };
  };
  pause = λ n. record { paused = true; pause_until = pos 0; pause_remaining = pos 0 };
  message = λ n. record {
    subject = none;
    payload = none;
    reply = none;
    keys_status = Status.nats_not_found;
    header_keys = [];
  };
  set_refuses = refuses_sequence;
}

abbrev opening : Context
opening = (create 1 Status.nats_ok).1

abbrev failing : Context
failing = (add_stream server orders_hash.config opening).1

abbrev publishing : Context
publishing = (publish server "orders.new" (1 ∷ 2 ∷ []) failing).1

session : Session server 1 Status.nats_ok publishing
session =
    later (later opened (adds_stream orders_hash.config)) (publishes "orders.new" (1 ∷ 2 ∷ []))

trace-count :
    (taken (object 4) publishing.trace ≡ 1) × (taken (array subjects_array) publishing.trace ≡ 1)
unfolding taken publish add_stream create set_each write written stream_fields
trace-count = (refl, refl)

session_example :
    taken (array subjects_array) publishing.trace ≡ given (array subjects_array) publishing.trace
session_example = Session-Balanced (array subjects_array) server session
