-- ===== src/JetStream/Open.antt =====
-- The methods of QoreNatsJetStream that read and remove stored messages, subscribe, and open
-- key-value buckets (src/QoreNatsJetStream.cpp).
use module_nats.Common.{ℕ, ℤ, pos, String, true, Option, none, some, List, [], ◌∷◌}
use module_nats.Value.{or_string, or_int, or_bool}
use module_nats.Runtime.{Status, Arg, text, number, Result, ok, ◌>>=◌}
use module_nats.Message.{MsgInfo, nats_msg_to_hash}
use module_nats.Hash.{Hash}
use module_nats.JetStream.Parts.{millis_or, int32_or}
use module_nats.JetStream.Client.{
  Call, SubOptions, KvConfig, js_get_msg, js_get_last_msg, js_delete_msg, js_erase_msg,
  js_subscribe_sync, js_pull_subscribe, js_key_value, js_create_key_value, js_delete_key_value,
  Client, Context, js_error, ask, guarded, fetched_case, call, simple,
}
use module_nats.Subscription.Client.{Subscription}
use module_nats.Subscription.Client as Subscriptions
use module_nats.KeyValue.Client.{Handle, kv_error}
use module_nats.KeyValue.Client as Buckets

-- A stored message; NATS_NOT_FOUND is no error, and nothing is returned.
unfoldable pub found_case :
    String
    → List Arg
    → (ℕ → Result MsgInfo)
    → Status × ℤ × ℕ
    → Context
    → Result (Option MsgInfo) × Context
unfolding fetched_case
found_case fmt shown convert (Status.nats_not_found, jerr, n) s = (ok none, s)
found_case fmt shown convert a s = fetched_case fmt shown (λ n. convert n >>= λ h. ok (some h)) a s

unfoldable pub found :
    Client → Call → String → List Arg → Context → Result (Option MsgInfo) × Context
unfolding found_case nats_msg_to_hash
found c q fmt shown s =
    let (a, t) = ask c q s in
    found_case fmt shown (λ n. nats_msg_to_hash c.set_refuses (c.message n)) a t

unfoldable pub stored :
    Client → Call → String → List Arg → Context → Result (Option MsgInfo) × Context
unfolding guarded found
stored c q fmt shown = guarded c js_error (found c q fmt shown)

unfoldable pub get_msg : Client → String → ℕ → Context → Result (Option MsgInfo) × Context
unfolding stored
get_msg c stream seq =
    stored c (js_get_msg stream seq) "failed to get message %llu from stream '%s'"
      (number (pos seq) ∷ text stream ∷ [])

unfoldable pub get_last_msg : Client → String → String → Context → Result (Option MsgInfo) × Context
unfolding stored
get_last_msg c stream subject =
    stored c (js_get_last_msg stream subject)
      "failed to get last message for subject '%s' from stream '%s'"
      (text subject ∷ text stream ∷ [])

unfoldable pub delete_msg : Client → String → ℕ → Context → Result (Unit {0}) × Context
unfolding call
delete_msg c stream seq =
    call c (js_delete_msg stream seq) "failed to delete message %llu from stream '%s'"
      (number (pos seq) ∷ text stream ∷ []) (λ n. tt)

unfoldable pub erase_msg : Client → String → ℕ → Context → Result (Unit {0}) × Context
unfolding call
erase_msg c stream seq =
    call c (js_erase_msg stream seq) "failed to erase message %llu from stream '%s'"
      (number (pos seq) ∷ text stream ∷ []) (λ n. tt)

-- A subscription of the C client becomes a QoreNatsSubscription of the process `pid`.
abbrev pub subscription : ℕ → Subscription
subscription pid = Subscriptions.create pid true []

unfoldable pub subscribe : Client → ℕ → String → Context → Result Subscription × Context
unfolding call
subscribe c pid subject =
    call c (js_subscribe_sync subject none) "failed to subscribe to JetStream subject '%s'"
      (text subject ∷ []) (λ n. subscription pid)

unfoldable pub pull_subscribe :
    Client → ℕ → String → String → Context → Result Subscription × Context
unfolding call
pull_subscribe c pid subject durable =
    call c (js_pull_subscribe subject durable none)
      "failed to pull subscribe to JetStream subject '%s' durable '%s'"
      (text subject ∷ text durable ∷ []) (λ n. subscription pid)

-- The options of subscribeWithOptions, with `o` for what jsSubOptions_Init writes.
unfoldable pub sub_options : Option Hash → SubOptions → SubOptions
sub_options none o = o
sub_options (some h) o = record o {
  stream = or_string (h "stream") o.stream;
  consumer = or_string (h "consumer") o.consumer;
  queue = or_string (h "queue") o.queue;
  manual_ack = or_bool (h "manual_ack") o.manual_ack;
  ordered = or_bool (h "ordered") o.ordered;
}

unfoldable pub subscribe_with_options :
    Client → ℕ → String → Option Hash → Context → Result Subscription × Context
unfolding call sub_options
subscribe_with_options c pid subject opts =
    call c (js_subscribe_sync subject (some (sub_options opts c.sub_default)))
      "failed to subscribe to subject '%s' with options" (text subject ∷ []) (λ n. subscription pid)

-- the options of pullSubscribeWithOptions
unfoldable pub pull_options : Option Hash → SubOptions → SubOptions
pull_options none o = o
pull_options (some h) o = record o {
  stream = or_string (h "stream") o.stream;
  manual_ack = or_bool (h "manual_ack") o.manual_ack;
  ordered = or_bool (h "ordered") o.ordered;
}

unfoldable pub pull_subscribe_with_options :
    Client → ℕ → String → String → Option Hash → Context → Result Subscription × Context
unfolding call pull_options
pull_subscribe_with_options c pid subject durable opts =
    call c
      (js_pull_subscribe subject durable
        (some (pull_options opts (record c.sub_default { durable = some durable }))))
      "failed to pull subscribe to subject '%s' durable '%s' with options"
      (text subject ∷ text durable ∷ []) (λ n. subscription pid)

-- A bucket becomes a QoreNatsKVStore of the process `pid`.
abbrev pub bucket : ℕ → Handle
bucket pid = Buckets.create pid true

unfoldable pub key_value : Client → ℕ → String → Context → Result Handle × Context
unfolding simple
key_value c pid name =
    simple c (js_key_value name) kv_error "failed to open KV bucket '%s'" (text name ∷ [])
      (λ n. bucket pid)

-- kvConfig behind memset
abbrev no_kv_config : KvConfig
no_kv_config = record {
  bucket = none;
  description = none;
  max_value_size = pos 0;
  history = pos 0;
  ttl = pos 0;
  max_bytes = pos 0;
  storage_type = pos 0;
  replicas = pos 0;
}

unfoldable pub kv_config : Hash → KvConfig
kv_config h = record {
  bucket = or_string (h "bucket") none;
  description = or_string (h "description") none;
  max_value_size = int32_or (h "max_value_size") no_kv_config.max_value_size;
  history = int32_or (h "history") no_kv_config.history;
  ttl = millis_or (h "ttl") no_kv_config.ttl;
  max_bytes = or_int (h "max_bytes") no_kv_config.max_bytes;
  storage_type = or_int (h "storage") no_kv_config.storage_type;
  replicas = int32_or (h "num_replicas") no_kv_config.replicas;
}

unfoldable pub create_key_value : Client → ℕ → Hash → Context → Result Handle × Context
unfolding simple kv_config
create_key_value c pid config =
    simple c (js_create_key_value (kv_config config)) kv_error "failed to create KV bucket" []
      (λ n. bucket pid)

unfoldable pub delete_key_value : Client → String → Context → Result (Unit {0}) × Context
unfolding simple
delete_key_value c name =
    simple c (js_delete_key_value name) kv_error "failed to delete KV bucket '%s'" (text name ∷ [])
      (λ n. tt)
