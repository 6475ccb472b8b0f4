-- ===== src/JetStream/Sessions.antt =====
-- The methods of a JetStream context as the steps of a session, and what a session leaves.
use module_nats.Common.{ℕ, ℤ, String, refl, Option, List, [], ◌∷◌}
use module_nats.Runtime.{Status, Arg, text}
use module_nats.Hash.{Hash}
use module_nats.JetStream.Stream.{StreamConfig, configure_stream_config, stream_info_to_hash}
use module_nats.JetStream.Consumer.{
  ConsumerConfig, configure_consumer_config, consumer_info_to_hash,
}
use module_nats.JetStream.Client.{
  Call, js_add_stream, js_update_stream, js_add_consumer, js_update_consumer, Client, Context,
  create, js_error,
}
use module_nats.JetStream.Streams.{
  configured, set_stream, add_stream, update_stream, set_consumer, add_consumer, update_consumer,
  delete_stream, purge_stream, delete_consumer, get_stream_info, get_consumer_info, list_streams,
  list_stream_names, list_consumers, list_consumer_names,
}
use module_nats.JetStream.Publish.{
  publish, publish_with_options, publish_async, publish_async_complete,
}
use module_nats.JetStream.Open.{
  found, stored, get_msg, get_last_msg, delete_msg, erase_msg, subscribe, pull_subscribe,
  subscribe_with_options, pull_subscribe_with_options, key_value, create_key_value,
  delete_key_value, bucket,
}
use module_nats.JetStream.Account.{get_account_info, pause_consumer}
use module_nats.JetStream.Memory.{
  Owned, taken, given, Balanced, guarded-Balanced, fetch-Balanced, call-Balanced, simple-Balanced,
  found-Balanced, configured-Balanced,
}

-- One method call on a context.
pub data Step (c : Client) (s : Context) : Context → Type 0 where
  adds_stream : (h : Hash) → Step c s (add_stream c h s).1
  updates_stream : (h : Hash) → Step c s (update_stream c h s).1
  deletes_stream : (name : String) → Step c s (delete_stream c name s).1
  gets_stream_info : (name : String) → Step c s (get_stream_info c name s).1
  purges_stream : (name : String) → Step c s (purge_stream c name s).1
  lists_streams : Step c s (list_streams c s).1
  lists_stream_names : Step c s (list_stream_names c s).1
  adds_consumer : (stream : String) (h : Hash) → Step c s (add_consumer c stream h s).1
  updates_consumer : (stream : String) (h : Hash) → Step c s (update_consumer c stream h s).1
  deletes_consumer : (stream name : String) → Step c s (delete_consumer c stream name s).1
  gets_consumer_info : (stream name : String) → Step c s (get_consumer_info c stream name s).1
  lists_consumers : (stream : String) → Step c s (list_consumers c stream s).1
  lists_consumer_names : (stream : String) → Step c s (list_consumer_names c stream s).1
  pauses : (stream name : String) (until : ℤ) → Step c s (pause_consumer c stream name until s).1
  publishes : (subject : String) (bytes : List ℕ) → Step c s (publish c subject bytes s).1
  publishes_with :
      (subject : String) (bytes : List ℕ) (h : Hash)
      → Step c s (publish_with_options c subject bytes h s).1
  publishes_async :
      (subject : String) (bytes : List ℕ) (h : Option Hash)
      → Step c s (publish_async c subject bytes h s).1
  completes : (timeout : ℤ) → Step c s (publish_async_complete c timeout s).1
  gets_account_info : Step c s (get_account_info c s).1
  gets_msg : (stream : String) (seq : ℕ) → Step c s (get_msg c stream seq s).1
  gets_last_msg : (stream subject : String) → Step c s (get_last_msg c stream subject s).1
  deletes_msg : (stream : String) (seq : ℕ) → Step c s (delete_msg c stream seq s).1
  erases_msg : (stream : String) (seq : ℕ) → Step c s (erase_msg c stream seq s).1
  subscribes : (pid : ℕ) (subject : String) → Step c s (subscribe c pid subject s).1
  subscribes_with :
      (pid : ℕ) (subject : String) (h : Option Hash)
      → Step c s (subscribe_with_options c pid subject h s).1
  pulls : (pid : ℕ) (subject durable : String) → Step c s (pull_subscribe c pid subject durable s).1
  pulls_with :
      (pid : ℕ) (subject durable : String) (h : Option Hash)
      → Step c s (pull_subscribe_with_options c pid subject durable h s).1
  opens_bucket : (pid : ℕ) (name : String) → Step c s (key_value c pid name s).1
  creates_bucket : (pid : ℕ) (h : Hash) → Step c s (create_key_value c pid h s).1
  deletes_bucket : (name : String) → Step c s (delete_key_value c name s).1

-- The states that method calls reach from a new context of the process `pid`, with `st` for the
-- status of natsConnection_JetStream.
pub data Session (c : Client) (pid : ℕ) (st : Status) : Context → Type 0 where
  opened : Session c pid st (create pid st).1
  later : {s t : Context} → Session c pid st s → Step c s t → Session c pid st t

create-Balanced : (o : Owned) (pid : ℕ) (st : Status) → Balanced o (create pid st).1
unfolding create taken given
create-Balanced o pid Status.nats_ok = refl
create-Balanced o pid st = refl

module _ (o : Owned) (c : Client) where
  set_stream-Balanced :
      (q : StreamConfig → Call) (fmt : String) (h : Hash) (s : Context)
      → Balanced o s
      → Balanced o (set_stream q fmt c h s).1
  unfolding set_stream
  set_stream-Balanced q fmt h s =
      let d = configure_stream_config c.malloc c.stream_default h in
      let convert = λ (n : ℕ). stream_info_to_hash c.set_refuses (c.stream_info n) in
      guarded-Balanced o c js_error (configured c d q fmt [] convert) s
        (configured-Balanced o c d q fmt [] convert)

  set_consumer-Balanced :
      (q : ConsumerConfig → Call) (fmt : String) (shown : List Arg) (h : Hash) (s : Context)
      → Balanced o s
      → Balanced o (set_consumer q fmt shown c h s).1
  unfolding set_consumer
  set_consumer-Balanced q fmt shown h s =
      let d = configure_consumer_config c.malloc c.consumer_default h in
      let convert = λ (n : ℕ). consumer_info_to_hash c.set_refuses (c.consumer_info n) in
      guarded-Balanced o c js_error (configured c d q fmt shown convert) s
        (configured-Balanced o c d q fmt shown convert)

  stored-Balanced :
      (q : Call) (fmt : String) (shown : List Arg) (s : Context)
      → Balanced o s
      → Balanced o (stored c q fmt shown s).1
  unfolding stored
  stored-Balanced q fmt shown s =
      guarded-Balanced o c js_error (found c q fmt shown) s (found-Balanced o c q fmt shown)

  Step-Balanced : {s t : Context} → Step c s t → Balanced o s → Balanced o t
  unfolding add_stream update_stream add_consumer update_consumer delete_stream purge_stream
      delete_consumer get_stream_info get_consumer_info list_streams list_stream_names
      list_consumers list_consumer_names pause_consumer publish publish_with_options publish_async
      publish_async_complete get_account_info get_msg get_last_msg delete_msg erase_msg subscribe
      subscribe_with_options pull_subscribe pull_subscribe_with_options key_value create_key_value
      delete_key_value
  Step-Balanced {s} (adds_stream h) = set_stream-Balanced js_add_stream _ h s
  Step-Balanced {s} (updates_stream h) = set_stream-Balanced js_update_stream _ h s
  Step-Balanced {s} (deletes_stream name) = call-Balanced o c _ _ _ _ s
  Step-Balanced {s} (gets_stream_info name) = fetch-Balanced o c _ _ _ _ s
  Step-Balanced {s} (purges_stream name) = call-Balanced o c _ _ _ _ s
  Step-Balanced {s} lists_streams = fetch-Balanced o c _ _ _ _ s
  Step-Balanced {s} lists_stream_names = fetch-Balanced o c _ _ _ _ s
  Step-Balanced {s} (adds_consumer stream h) =
      set_consumer-Balanced (js_add_consumer stream) _ (text stream ∷ []) h s
  Step-Balanced {s} (updates_consumer stream h) =
      set_consumer-Balanced (js_update_consumer stream) _ (text stream ∷ []) h s
  Step-Balanced {s} (deletes_consumer stream name) = call-Balanced o c _ _ _ _ s
  Step-Balanced {s} (gets_consumer_info stream name) = fetch-Balanced o c _ _ _ _ s
  Step-Balanced {s} (lists_consumers stream) = fetch-Balanced o c _ _ _ _ s
  Step-Balanced {s} (lists_consumer_names stream) = fetch-Balanced o c _ _ _ _ s
  Step-Balanced {s} (pauses stream name until) = fetch-Balanced o c _ _ _ _ s
  Step-Balanced {s} (publishes subject bytes) = fetch-Balanced o c _ _ _ _ s
  Step-Balanced {s} (publishes_with subject bytes h) = fetch-Balanced o c _ _ _ _ s
  Step-Balanced {s} (publishes_async subject bytes h) = simple-Balanced o c _ _ _ _ _ s
  Step-Balanced {s} (completes timeout) = simple-Balanced o c _ _ _ _ _ s
  Step-Balanced {s} gets_account_info = fetch-Balanced o c _ _ _ _ s
  Step-Balanced {s} (gets_msg stream seq) = stored-Balanced _ _ _ s
  Step-Balanced {s} (gets_last_msg stream subject) = stored-Balanced _ _ _ s
  Step-Balanced {s} (deletes_msg stream seq) = call-Balanced o c _ _ _ _ s
  Step-Balanced {s} (erases_msg stream seq) = call-Balanced o c _ _ _ _ s
  Step-Balanced {s} (subscribes pid subject) = call-Balanced o c _ _ _ _ s
  Step-Balanced {s} (subscribes_with pid subject h) = call-Balanced o c _ _ _ _ s
  Step-Balanced {s} (pulls pid subject durable) = call-Balanced o c _ _ _ _ s
  Step-Balanced {s} (pulls_with pid subject durable h) = call-Balanced o c _ _ _ _ s
  Step-Balanced {s} (opens_bucket pid name) = simple-Balanced o c _ _ _ _ (λ n. bucket pid) s
  Step-Balanced {s} (creates_bucket pid h) = simple-Balanced o c _ _ _ _ (λ n. bucket pid) s
  Step-Balanced {s} (deletes_bucket name) = simple-Balanced o c _ _ _ _ _ s

  pub Session-Balanced : {pid : ℕ} {st : Status} {s : Context} → Session c pid st s → Balanced o s
  Session-Balanced {pid} {st} opened = create-Balanced o pid st
  Session-Balanced (later r q) = Step-Balanced q (Session-Balanced r)
