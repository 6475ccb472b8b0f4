-- ===== src/JetStream/Streams.antt =====
-- The methods of QoreNatsJetStream on streams and consumers (src/QoreNatsJetStream.cpp).
use module_nats.Common.{ℕ, String, List, [], ◌∷◌}
use module_nats.Runtime.{Arg, text, Result, ok, raise}
use module_nats.Hash.{Hash}
use module_nats.JetStream.Parts.{Array, Configured}
use module_nats.JetStream.Stream.{
  StreamConfig, InfoHash, configure_stream_config, stream_info_to_hash,
}
use module_nats.JetStream.Consumer.{
  ConsumerConfig, configure_consumer_config, consumer_info_to_hash,
}
use module_nats.Hash.{all_pushed}
use module_nats.JetStream.Client.{
  Call, js_add_stream, js_update_stream, js_delete_stream, js_get_stream_info, js_purge_stream,
  js_streams, js_stream_names, js_add_consumer, js_update_consumer, js_delete_consumer,
  js_get_consumer_info, js_consumers, js_consumer_names, allocated, freed, Client, Context, log,
  js_error, ask, guarded, fetched_case, fetch, call,
}

unfoldable pub log_allocated : List Array → Context → Context
log_allocated [] s = s
log_allocated (a ∷ rest) s = log (allocated a) (log_allocated rest s)

-- `if (cfg.Subjects) free(cfg.Subjects);`, and the like for the arrays of a consumer
unfoldable pub free_arrays : List Array → Context → Context
free_arrays [] s = s
free_arrays (a ∷ rest) s = log (freed a) (free_arrays rest s)

-- A call with a configuration: the arrays are freed behind the call, or where the configuration
-- fails.
unfoldable pub configured_case :
    Client
    → Call
    → String
    → List Arg
    → (ℕ → Result InfoHash)
    → List Array
    → Result (Unit {0})
    → Context
    → Result InfoHash × Context
unfolding free_arrays fetched_case
configured_case c q fmt shown convert arrays (raise e) s = (raise e, free_arrays arrays s)
configured_case c q fmt shown convert arrays (ok _) s =
    let (a, t) = ask c q s in fetched_case fmt shown convert a (free_arrays arrays t)

-- the part of the four methods below behind their guards
unfoldable pub configured {ℓ} :
    {C : Type ℓ}
    → Client
    → Configured C
    → (C → Call)
    → String
    → List Arg
    → (ℕ → Result InfoHash)
    → Context
    → Result InfoHash × Context
unfolding configured_case log_allocated
configured c d q fmt shown convert s =
    configured_case c (q d.config) fmt shown convert d.arrays d.result (log_allocated d.arrays s)

unfoldable pub set_stream :
    (StreamConfig → Call) → String → Client → Hash → Context → Result InfoHash × Context
unfolding guarded configured configure_stream_config stream_info_to_hash
set_stream q fmt c h = guarded c js_error (
    configured c (configure_stream_config c.malloc c.stream_default h) q fmt []
      (λ n. stream_info_to_hash c.set_refuses (c.stream_info n)))

unfoldable pub add_stream : Client → Hash → Context → Result InfoHash × Context
unfolding set_stream
add_stream = set_stream js_add_stream "failed to add stream"

unfoldable pub update_stream : Client → Hash → Context → Result InfoHash × Context
unfolding set_stream
update_stream = set_stream js_update_stream "failed to update stream"

unfoldable pub set_consumer :
    (ConsumerConfig → Call)
    → String
    → List Arg
    → Client
    → Hash
    → Context
    → Result InfoHash × Context
unfolding guarded configured configure_consumer_config consumer_info_to_hash
set_consumer q fmt shown c h = guarded c js_error (
    configured c (configure_consumer_config c.malloc c.consumer_default h) q fmt shown
      (λ n. consumer_info_to_hash c.set_refuses (c.consumer_info n)))

unfoldable pub add_consumer : Client → String → Hash → Context → Result InfoHash × Context
unfolding set_consumer
add_consumer c stream h =
    set_consumer (js_add_consumer stream) "failed to add consumer to stream '%s'" (text stream ∷ [])
      c h

unfoldable pub update_consumer : Client → String → Hash → Context → Result InfoHash × Context
unfolding set_consumer
update_consumer c stream h =
    set_consumer (js_update_consumer stream) "failed to update consumer on stream '%s'"
      (text stream ∷ []) c h

unfoldable pub delete_stream : Client → String → Context → Result (Unit {0}) × Context
unfolding call
delete_stream c name =
    call c (js_delete_stream name) "failed to delete stream '%s'" (text name ∷ []) (λ n. tt)

unfoldable pub purge_stream : Client → String → Context → Result (Unit {0}) × Context
unfolding call
purge_stream c name =
    call c (js_purge_stream name) "failed to purge stream '%s'" (text name ∷ []) (λ n. tt)

unfoldable pub delete_consumer : Client → String → String → Context → Result (Unit {0}) × Context
unfolding call
delete_consumer c stream consumer =
    call c (js_delete_consumer stream consumer) "failed to delete consumer '%s' from stream '%s'"
      (text consumer ∷ text stream ∷ []) (λ n. tt)

unfoldable pub get_stream_info : Client → String → Context → Result InfoHash × Context
unfolding fetch stream_info_to_hash
get_stream_info c name =
    fetch c (js_get_stream_info name) "failed to get stream info for '%s'" (text name ∷ [])
      λ n. stream_info_to_hash c.set_refuses (c.stream_info n)

unfoldable pub get_consumer_info : Client → String → String → Context → Result InfoHash × Context
unfolding fetch consumer_info_to_hash
get_consumer_info c stream consumer =
    fetch c (js_get_consumer_info stream consumer)
      "failed to get consumer info for '%s' on stream '%s'" (text consumer ∷ text stream ∷ [])
      λ n. consumer_info_to_hash c.set_refuses (c.consumer_info n)

unfoldable pub list_streams : Client → Context → Result (List InfoHash) × Context
unfolding fetch all_pushed stream_info_to_hash
list_streams c =
    fetch c js_streams "failed to list streams" []
      λ n. all_pushed c.set_refuses (stream_info_to_hash c.set_refuses) (c.stream_list n)

unfoldable pub list_stream_names : Client → Context → Result (List String) × Context
unfolding fetch all_pushed
list_stream_names c =
    fetch c js_stream_names "failed to list stream names" []
      λ n. all_pushed c.set_refuses ok (c.name_list n)

unfoldable pub list_consumers : Client → String → Context → Result (List InfoHash) × Context
unfolding fetch all_pushed consumer_info_to_hash
list_consumers c stream =
    fetch c (js_consumers stream) "failed to list consumers for stream '%s'" (text stream ∷ [])
      λ n. all_pushed c.set_refuses (consumer_info_to_hash c.set_refuses) (c.consumer_list n)

unfoldable pub list_consumer_names : Client → String → Context → Result (List String) × Context
unfolding fetch all_pushed
list_consumer_names c stream =
    fetch c (js_consumer_names stream) "failed to list consumer names for stream '%s'"
      (text stream ∷ []) λ n. all_pushed c.set_refuses ok (c.name_list n)
