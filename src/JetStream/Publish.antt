-- ===== src/JetStream/Publish.antt =====
-- The methods of QoreNatsJetStream that publish (src/QoreNatsJetStream.cpp).
use module_nats.Common.{ℕ, ℤ, pos, String, Option, none, some, List, [], ◌∷◌, if◌then◌else◌}
use module_nats.Common.Int.{ltb_ℤ, int64}
use module_nats.Value.{Value, or_string, or_int, or_bool}
use module_nats.Runtime.{text, Exception, set_failed, Result, ok}
use module_nats.Message.{Refuses}
use module_nats.Hash.{
  Hash, empty, Write, write, new_hash, string_value, string_write, int_write, bool_write,
}
use module_nats.JetStream.Consumer.{uint64_or}
use module_nats.JetStream.Client.{
  PubOptions, PubAck, js_publish, js_publish_async, js_publish_async_complete, Client, Context,
  js_error, fetch, simple,
}

-- `h->setKeyValue(key, value, xsink);` in publish, whatever stands in the sink, unless the source's
-- pointer is null: the hash, and the exceptions of the sink, newest first.
unfoldable pub set_each :
    Refuses → String → Option Value → Hash × List Exception → Hash × List Exception
unfolding write
set_each refuses k none (h, es) = (h, es)
set_each refuses k (some v) (h, es) =
    if refuses k then (h, set_failed k ∷ es) else (write k (some v) h, es)

-- The conversion of the acknowledgement in publish.
unfoldable pub pub_ack_each : Refuses → PubAck → Hash × List Exception
unfolding set_each int64
pub_ack_each refuses a =
    let made : Hash × List Exception =
      (empty, (if refuses "NatsPubAck" then set_failed "NatsPubAck" ∷ [] else [])) in
    let named = set_each refuses "stream" (string_value a.stream) made in
    let placed = set_each refuses "sequence" (some (Value.int (int64 a.sequence))) named in
    set_each refuses "duplicate" (some (Value.bool a.duplicate)) placed

-- The writes of publishWithOptions.
unfoldable pub pub_ack_writes : PubAck → List Write
unfolding int64
pub_ack_writes a =
    string_write "stream" a.stream
    ∷ int_write "sequence" (int64 a.sequence)
    ∷ bool_write "duplicate" a.duplicate
    ∷ []

unfoldable pub publish :
    Client → String → List ℕ → Context → Result (Hash × List Exception) × Context
unfolding fetch pub_ack_each
publish c subject bytes =
    fetch c (js_publish subject bytes none) "failed to publish to subject '%s'" (text subject ∷ [])
      λ n. ok (pub_ack_each c.set_refuses (c.pub_ack n))

-- the options of publishWithOptions and publishAsync, with `o` for what jsPubOptions_Init writes
unfoldable pub pub_options : Hash → PubOptions → PubOptions
unfolding uint64_or
pub_options h o = record {
  max_wait = or_int (h "max_wait_ms") o.max_wait;
  msg_id = or_string (h "msg_id") o.msg_id;
  expect_stream = or_string (h "expect_stream") o.expect_stream;
  expect_last_msg_id = or_string (h "expect_last_msg_id") o.expect_last_msg_id;
  expect_last_seq = uint64_or (h "expect_last_seq") o.expect_last_seq;
  expect_last_subject_seq = uint64_or (h "expect_last_subject_seq") o.expect_last_subject_seq;
  expect_no_message = or_bool (h "expect_no_message") o.expect_no_message;
}

unfoldable pub publish_with_options :
    Client → String → List ℕ → Hash → Context → Result Hash × Context
unfolding fetch pub_options pub_ack_writes new_hash
publish_with_options c subject bytes opts =
    fetch c (js_publish subject bytes (some (pub_options opts c.pub_default)))
      "failed to publish to subject '%s'" (text subject ∷ [])
      λ n. new_hash c.set_refuses "NatsPubAck" (pub_ack_writes (c.pub_ack n))

abbrev optional {ℓ κ} : {A : Type ℓ} {B : Type κ} → (A → B) → Option A → Option B
optional f none = none
optional f (some a) = some (f a)

unfoldable pub publish_async :
    Client → String → List ℕ → Option Hash → Context → Result (Unit {0}) × Context
unfolding simple pub_options
publish_async c subject bytes opts =
    simple c (js_publish_async subject bytes (optional (λ h. pub_options h c.pub_default) opts))
      js_error "failed to async publish to subject '%s'" (text subject ∷ []) (λ n. tt)

unfoldable pub publish_async_complete : Client → ℤ → Context → Result (Unit {0}) × Context
unfolding simple
publish_async_complete c timeout =
    let o =
      if ltb_ℤ (pos 0) timeout
      then record c.pub_default { max_wait = timeout }
      else c.pub_default in
    simple c (js_publish_async_complete o) js_error "failed to complete async publish" [] (λ n. tt)
