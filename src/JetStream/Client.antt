-- ===== src/JetStream/Client.antt =====
-- The C client as the JetStream context uses it, the context's state, and the forms of its methods.
use module_nats.Common.{ℕ, ℤ, String, Bool, true, false, Option, List, [], ◌∷◌, ◌==◌, if◌then◌else◌}
use module_nats.Runtime.{
  Status, Arg, Result, ok, raise, raised, js_failed, failed, cancelled, or_failed,
}
use module_nats.Message.{Content}
use module_nats.JetStream.Parts.{Array}
use module_nats.JetStream.Stream.{StreamConfig, StreamInfo}
use module_nats.JetStream.Consumer.{ConsumerConfig, ConsumerInfo}

-- jsPubOptions, as far as it is set.
pub record PubOptions : Type 0 where
  pub max_wait : ℤ
  pub msg_id : Option String
  pub expect_stream : Option String
  pub expect_last_msg_id : Option String
  pub expect_last_seq : ℕ
  pub expect_last_subject_seq : ℕ
  pub expect_no_message : Bool

-- jsSubOptions, as far as it is set; `durable` is Config.Durable.
pub record SubOptions : Type 0 where
  pub stream : Option String
  pub consumer : Option String
  pub queue : Option String
  pub manual_ack : Bool
  pub ordered : Bool
  pub durable : Option String

-- kvConfig, as far as it is set.
pub record KvConfig : Type 0 where
  pub bucket : Option String
  pub description : Option String
  pub max_value_size : ℤ
  pub history : ℤ
  pub ttl : ℤ
  pub max_bytes : ℤ
  pub storage_type : ℤ
  pub replicas : ℤ

-- The calls of the C client, with their arguments; options that are null are `none`.
pub data Call : Type 0 where
  js_add_stream js_update_stream : StreamConfig → Call
  js_delete_stream js_get_stream_info js_purge_stream : String → Call
  js_streams js_stream_names : Call
  js_add_consumer js_update_consumer : String → ConsumerConfig → Call
  js_delete_consumer js_get_consumer_info : String → String → Call
  js_consumers js_consumer_names : String → Call
  js_pause_consumer : String → String → ℕ → Call
  js_publish js_publish_async : String → List ℕ → Option PubOptions → Call
  js_publish_async_complete : PubOptions → Call
  js_get_account_info : Call
  js_get_msg js_delete_msg js_erase_msg : String → ℕ → Call
  js_get_last_msg : String → String → Call
  js_subscribe_sync : String → Option SubOptions → Call
  js_pull_subscribe : String → String → Option SubOptions → Call
  js_key_value js_delete_key_value : String → Call
  js_create_key_value : KvConfig → Call

-- What a context has asked, newest first. What a call hands over (an information, a list, an
-- acknowledgement, a message) is named by a number that stands for its pointer.
pub data Event : Type 0 where
  checked : Bool → Event
  called : Call → Status → Event
  received : ℕ → Event
  destroyed : ℕ → Event
  allocated : Array → Event
  freed : Array → Event
  context_destroyed : Event

-- jsPubAck, as far as it is read
pub record PubAck : Type 0 where
  pub stream : Option String
  pub sequence : ℕ
  pub duplicate : Bool

-- jsAccountLimits and jsAccountInfo, as far as they are read
pub record Limits : Type 0 where
  pub max_memory : ℤ
  pub max_store : ℤ
  pub max_streams : ℤ
  pub max_consumers : ℤ
  pub max_ack_pending : ℤ
  pub memory_max_stream_bytes : ℤ
  pub store_max_stream_bytes : ℤ
  pub max_bytes_required : Bool

pub record AccountInfo : Type 0 where
  pub memory : ℕ
  pub store : ℕ
  pub streams : ℤ
  pub consumers : ℤ
  pub domain : Option String
  pub api_total : ℕ
  pub api_errors : ℕ
  pub limits : Limits

-- jsConsumerPauseResponse, as far as it is read; the times are in nanoseconds
pub record Pause : Type 0 where
  pub paused : Bool
  pub pause_until : ℤ
  pub pause_remaining : ℤ

-- The answers of the C client, of malloc and of the Qore runtime. A call answers with its status, the
-- JetStream error code, and what it hands over.
pub record Client : Type 0 where
  pub check_cancel : List Event → Bool
  pub malloc : ℕ → Bool
  pub answer : List Event → Call → Status × ℤ × ℕ
  pub stream_default : StreamConfig  -- jsStreamConfig_Init
  pub consumer_default : ConsumerConfig  -- jsConsumerConfig_Init
  pub pub_default : PubOptions  -- jsPubOptions_Init
  pub sub_default : SubOptions  -- jsSubOptions_Init
  pub stream_info : ℕ → StreamInfo
  pub stream_list : ℕ → List StreamInfo
  pub consumer_info : ℕ → ConsumerInfo
  pub consumer_list : ℕ → List ConsumerInfo
  pub name_list : ℕ → List String
  pub pub_ack : ℕ → PubAck
  pub account_info : ℕ → AccountInfo
  pub pause : ℕ → Pause
  pub message : ℕ → Content
  pub set_refuses : String → Bool

-- The fields of QoreNatsJetStream: the creating process, and whether `js` is set.
pub record Context : Type 0 where
  pub creator : ℕ
  pub is_set : Bool
  pub trace : List Event

abbrev pub log : Event → Context → Context
log e s = record s { trace = e ∷ s.trace }

abbrev pub js_error : String
js_error = "NATS-JETSTREAM-ERROR"

-- The constructor, in the process `pid`; natsConnection_JetStream sets `js` when it succeeds.
unfoldable pub create : ℕ → Status → Result (Unit {0}) × Context
create pid Status.nats_ok = (ok tt, record { creator = pid; is_set = true; trace = [] })
create pid s = (
  raise (failed js_error s "failed to create JetStream context" []),
  record { creator = pid; is_set = false; trace = [] },
)

-- The destructor, in the process `pid`.
unfoldable pub destroy : ℕ → Context → Context
destroy pid s =
    if pid == s.creator
    then (if s.is_set then record (log context_destroyed s) { is_set = false } else s)
    else s

unfoldable pub check : Client → Context → Bool × Context
check c s = let b = c.check_cancel s.trace in (b, log (checked b) s)

-- The two guards at the head of each method, and the rest of the method. `err` is the code of the
-- exception.
unfoldable pub guarded {ℓ} :
    {A : Type ℓ} → Client → String → (Context → Result A × Context) → Context → Result A × Context
unfolding check
guarded c err rest s =
    if s.is_set
    then (let (stop, t) = check c s in elim stop [ true ↦ (raise cancelled, t) | false ↦ rest t ])
    else (raise (raised err "JetStream context is not valid" []), s)

-- A call of the C client.
abbrev pub ask : Client → Call → Context → (Status × ℤ × ℕ) × Context
ask c q s = let a = c.answer s.trace q in (a, log (called q a.0) s)

-- `if (s != NATS_OK) { nats_js_error(...); return ...; }`, and what is done with the object that was
-- handed over: it is converted, and destroyed in any case.
unfoldable pub fetched_case {ℓ} :
    {A : Type ℓ}
    → String
    → List Arg
    → (ℕ → Result A)
    → Status × ℤ × ℕ
    → Context
    → Result A × Context
fetched_case fmt shown convert (Status.nats_ok, jerr, n) s =
    (convert n, log (destroyed n) (log (received n) s))
fetched_case fmt shown convert (st, jerr, n) s = (raise (js_failed js_error st jerr fmt shown), s)

unfoldable pub fetched {ℓ} :
    {A : Type ℓ} → Client → Call → String → List Arg → (ℕ → Result A) → Context → Result A × Context
unfolding fetched_case
fetched c q fmt shown convert s = let (a, t) = ask c q s in fetched_case fmt shown convert a t

-- A call that hands nothing over that the method has to destroy.
unfoldable pub called_case {ℓ} :
    {A : Type ℓ} → String → List Arg → (ℕ → A) → Status × ℤ × ℕ → Result A
called_case fmt shown made (Status.nats_ok, jerr, n) = ok (made n)
called_case fmt shown made (st, jerr, n) = raise (js_failed js_error st jerr fmt shown)

unfoldable pub call_js {ℓ} :
    {A : Type ℓ} → Client → Call → String → List Arg → (ℕ → A) → Context → Result A × Context
unfolding called_case
call_js c q fmt shown made s = let (a, t) = ask c q s in (called_case fmt shown made a, t)

-- A method that is one such call.
unfoldable pub fetch {ℓ} :
    {A : Type ℓ} → Client → Call → String → List Arg → (ℕ → Result A) → Context → Result A × Context
unfolding guarded fetched
fetch c q fmt shown convert = guarded c js_error (fetched c q fmt shown convert)

unfoldable pub call {ℓ} :
    {A : Type ℓ} → Client → Call → String → List Arg → (ℕ → A) → Context → Result A × Context
unfolding guarded call_js
call c q fmt shown made = guarded c js_error (call_js c q fmt shown made)

-- A call whose failure is reported by nats_error.
unfoldable pub simple_case {ℓ} :
    {A : Type ℓ}
    → Client
    → Call
    → String
    → String
    → List Arg
    → (ℕ → A)
    → Context
    → Result A × Context
unfolding or_failed
simple_case c q err fmt shown made s =
    let ((st, _, n), t) = ask c q s in (or_failed st err fmt shown (made n), t)

unfoldable pub simple {ℓ} :
    {A : Type ℓ}
    → Client
    → Call
    → String
    → String
    → List Arg
    → (ℕ → A)
    → Context
    → Result A × Context
unfolding guarded simple_case
simple c q err fmt shown made = guarded c err (simple_case c q err fmt shown made)
