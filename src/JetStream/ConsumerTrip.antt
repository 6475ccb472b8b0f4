-- ===== src/JetStream/ConsumerTrip.antt =====
-- The configuration of a consumer that went into a hash, read from that hash again
-- (src/QoreNatsJetStream.cpp).
use module_nats.Common.{
  ℕ, String, ◌≡◌, refl, ap, sym, subst, ◌∙◌, ◌<◌, ◌^◌, Bool, Option, none, some,
}
use module_nats.Common.Int.{int32-fits, Fits32, uint64-int64}
use module_nats.Value.{Value, or_string}
use module_nats.Runtime.{ok, done}
use module_nats.Message.{Refuses}
use module_nats.Hash.{empty, or_value, write, written, string_value}
use module_nats.JetStream.Stream.{InfoHash, optional_writes}
use module_nats.JetStream.Consumer.{
  ConsumerConfig, ConsumerInfo, uint64_or, fields_before, fields_between, fields_after, filter_case,
  configure_filters, back_off_case, configure_consumer_config, consumer_config_writes,
  consumer_state_writes, consumer_info_to_hash,
}
use module_nats.JetStream.RoundTrip.{info_to_hash-config, Millis, time_back, string_back}

-- The strings that jsConsumerConfig_Init leaves null.
abbrev pub IsFresh : ConsumerConfig → Type 0
IsFresh d =
    (d.durable ≡ none)
    × (d.deliver_subject ≡ none)
    × (d.deliver_group ≡ none)
    × (d.description ≡ none)
    × (d.filter_subject ≡ none)
    × (d.name ≡ none)
    × (d.sample_frequency ≡ none)

-- The values that the hash keeps: whole milliseconds, and numbers that fit the C types.
abbrev pub Keeps : ConsumerConfig → Type 0
Keeps c =
    Millis c.ack_wait
    × Millis c.heartbeat
    × Millis c.max_request_expires
    × Millis c.inactive_threshold
    × Fits32 c.max_deliver
    × Fits32 c.max_ack_pending
    × (c.rate_limit < 2 ^ 64)

null_back :
    (d s : Option String) → d ≡ none → or_string (or_value (string_value s) Value.nothing) d ≡ s
null_back d s e = ap (or_string (or_value (string_value s) Value.nothing)) e ∙ string_back s

-- The configuration `c`, with what `d` has for the fields that do not go into the hash.
abbrev pub without_lost : ConsumerConfig → ConsumerConfig → ConsumerConfig
without_lost d c = record c {
  opt_start_seq = d.opt_start_seq;
  opt_start_time = d.opt_start_time;
  back_off = d.back_off;
  filter_subjects = d.filter_subjects;
}

configure_back :
    (malloc : ℕ → Bool) (d c : ConsumerConfig) (fresh : IsFresh d) (keeps : Keeps c)
    → (configure_consumer_config malloc d (written (consumer_config_writes c) empty)).config
      ≡ without_lost d c
unfolding configure_consumer_config back_off_case configure_filters filter_case fields_before
    fields_between fields_after uint64_or written write consumer_config_writes
configure_back malloc d c fresh keeps = λ i. record (without_lost d c) {
  durable = null_back d.durable c.durable fresh.0 i;
  deliver_subject = null_back d.deliver_subject c.deliver_subject fresh.1 i;
  deliver_group = null_back d.deliver_group c.deliver_group fresh.2 i;
  description = null_back d.description c.description fresh.3 i;
  filter_subject = null_back d.filter_subject c.filter_subject fresh.4 i;
  name = null_back d.name c.name fresh.5 i;
  sample_frequency = null_back d.sample_frequency c.sample_frequency fresh.6 i;
  ack_wait = time_back c.ack_wait d.ack_wait keeps.0 i;
  heartbeat = time_back c.heartbeat d.heartbeat keeps.1 i;
  max_request_expires = time_back c.max_request_expires d.max_request_expires keeps.2 i;
  inactive_threshold = time_back c.inactive_threshold d.inactive_threshold keeps.3 i;
  max_deliver = int32-fits c.max_deliver keeps.4 i;
  max_ack_pending = int32-fits c.max_ack_pending keeps.5 i;
  rate_limit = uint64-int64 c.rate_limit keeps.6 i;
}

configured_done :
    (malloc : ℕ → Bool) (d c : ConsumerConfig)
    → (configure_consumer_config malloc d (written (consumer_config_writes c) empty)).result ≡ done
unfolding configure_consumer_config back_off_case configure_filters filter_case fields_before
    fields_between fields_after uint64_or written write consumer_config_writes
configured_done malloc d c = refl

-- A consumer's information that became a hash gives its configuration back, except for four fields:
-- configureConsumerConfig succeeds on the sub-hash "config" of that hash, whatever malloc does, and
-- yields the configuration that the information had, but with the values of jsConsumerConfig_Init for
-- opt_start_seq, opt_start_time, back_off and filter_subjects. Conditions: jsConsumerConfig_Init leaves the strings
-- null; the times are whole milliseconds, max_deliver and max_ack_pending fit 32 bits, and rate_limit
-- fits 64 bits.
pub configure_consumer_config-consumer_info_to_hash :
    (malloc : ℕ → Bool) (refuses : Refuses) (d c : ConsumerConfig) (i : ConsumerInfo) (g : InfoHash)
    → IsFresh d
    → Keeps c
    → i.config ≡ some c
    → consumer_info_to_hash refuses i ≡ ok g
    → ((configure_consumer_config malloc d g.config).result ≡ done)
      × ((configure_consumer_config malloc d g.config).config ≡ record c {
        opt_start_seq = d.opt_start_seq;
        opt_start_time = d.opt_start_time;
        back_off = d.back_off;
        filter_subjects = d.filter_subjects;
      })
unfolding consumer_info_to_hash optional_writes
configure_consumer_config-consumer_info_to_hash malloc refuses d c i g fresh keeps has e =
    let w =
      info_to_hash-config refuses _ _ _ (consumer_state_writes i) g e
      ∙ ap (λ o. written (optional_writes consumer_config_writes o) empty) has in
    subst
      (λ k.
        let x = configure_consumer_config malloc d k in
        (x.result ≡ done) × (x.config ≡ without_lost d c))
      (sym w) (configured_done malloc d c, configure_back malloc d c fresh keeps)
