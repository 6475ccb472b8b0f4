-- ===== src/Connection/Setup.antt =====
-- What the constructors of QoreNatsConnection (src/QoreNatsConnection.cpp) ask of the C client and of
-- the sandbox manager before and when they connect, as actions that may fail.
use module_nats.Common.{
  ℕ, ℤ, pos, String, Bool, true, false, Option, none, List, [], ◌∷◌, if◌then◌else◌,
}
use module_nats.Runtime.{Status, Arg, Exception, denied, Result, ok, raise, done, or_failed}
use module_nats.Value.{Value, Fields, get_key_value}
use module_nats.Url.Access.{Policy, Access, allowed, check_nats_network_access}
use module_nats.Dialer.{Dialer}

-- The callbacks of the options.
pub data Callback : Type 0 where
  on_disconnect on_reconnect on_closed on_error on_lame_duck on_discovered_servers : Callback

-- The calls natsOptions_*, with what they are given. Those that neither name a file or a server nor
-- concern the dialer are a function's name and its argument.
pub data Setting : Type 0 where
  string_setting : String → String → Setting
  int_setting : String → ℤ → Setting
  flag_setting : String → Bool → Setting
  user_info : String → Option String → Setting
  reconnect_jitter : ℤ → ℤ → Setting
  url : String → Setting
  servers : List String → Setting
  nkey_from_seed : Option String → String → Setting
  user_credentials : String → Setting
  ca_certificates : String → Setting
  certificates_chain : String → String → Setting
  timeout : ℤ → Setting
  ip_resolution_order : ℤ → Setting
  no_randomize : Setting
  callback : Callback → Setting
  proxy_handler : Setting

-- What was asked, newest first.
pub data Event : Type 0 where
  options_created : Status → Event
  url_checked : String → Access → Event
  file_checked : String → Bool → Event
  applied : Setting → Status → Event
  connected : Status → Event

-- The answers of the C client and of the sandbox manager. `bytes` are those of a string.
pub record Client : Type 0 where
  pub create_options : Status
  pub apply : List Event → Setting → Status
  pub policy : Policy
  pub bytes : String → List ℕ
  pub check_file : List Event → String → Bool
  -- natsConnection_Connect, and the exception that the dialer has kept
  pub connect : List Event → Status × Option Exception
  pub default_timeout : ℕ  -- NATS_DEFAULT_CONNECT_TIMEOUT_MS

-- The fields of QoreNatsConnection that the constructors set. The context of the callbacks is the
-- list of those whose closure it holds, newest first.
pub record Setup : Type 0 where
  pub connect_timeout_ms : ℤ
  pub ip_order : ℤ
  pub keep_order : Bool
  pub context : Option (List Callback)
  pub dialer : Option Dialer
  pub trace : List Event

abbrev pub new_setup : Setup
new_setup = record {
  connect_timeout_ms = pos 0;
  ip_order = pos 0;
  keep_order = false;
  context = none;
  dialer = none;
  trace = [];
}

abbrev pub log : Event → Setup → Setup
log e s = record s { trace = e ∷ s.trace }

-- A part of a constructor: 0, or -1 with an exception.
abbrev pub Action : Type 0
Action = Setup → Result (Unit {0}) × Setup

unfoldable pub skip : Action
skip s = (done, s)

-- `if (...) { return -1; }`, and what follows
unfoldable pub next : Action → Result (Unit {0}) × Setup → Result (Unit {0}) × Setup
next k (ok _, s) = k s
next k (raise e, s) = (raise e, s)

unfoldable pub run : List Action → Action
unfolding skip next
run [] = skip
run (a ∷ rest) = λ s. next (run rest) (a s)

-- A call natsOptions_*, and the exception when it fails.
unfoldable pub apply : Client → String → String → List Arg → Setting → Action
unfolding or_failed
apply c err fmt shown q s =
    let st = c.apply s.trace q in (or_failed st err fmt shown tt, log (applied q st) s)

-- check_nats_network_access
unfoldable pub check_url : Client → String → Action
unfolding check_nats_network_access
check_url c u s =
    let a = check_nats_network_access c.policy (c.bytes u) in
    (elim a [ allowed ↦ done | _ ↦ raise (denied u) ], log (url_checked u a) s)

-- check_nats_file_access
unfoldable pub check_file : Client → String → Action
check_file c path s =
    let b = c.check_file s.trace path in
    ((if b then done else raise (denied path)), log (file_checked path b) s)

-- What an option of each type does.
unfoldable pub on_string : Value → (String → Action) → Action
unfolding skip
on_string (Value.str x) f = f x
on_string _ f = skip

unfoldable pub on_int : Value → (ℤ → Action) → Action
unfolding skip
on_int (Value.int n) f = f n
on_int _ f = skip

unfoldable pub on_bool : Value → (Bool → Action) → Action
unfolding skip
on_bool (Value.bool b) f = f b
on_bool _ f = skip

unfoldable pub on_hash : Value → (Fields → Action) → Action
unfolding skip
on_hash (Value.hash h) f = f h
on_hash _ f = skip

-- `v.getType() == NT_BOOLEAN && v.getAsBool()`
unfoldable pub on_true : Value → Action → Action
unfolding skip
on_true (Value.bool true) f = f
on_true _ f = skip

-- The options that are one call: the key, the code and format of the exception, and the function.
unfoldable pub string_option : Client → Fields → String → String → String → String → Action
unfolding on_string apply
string_option c h key err fmt f =
    on_string (get_key_value h key) λ x. apply c err fmt [] (string_setting f x)

unfoldable pub int_option : Client → Fields → String → String → String → (ℤ → Setting) → Action
unfolding on_int apply
int_option c h key err fmt q = on_int (get_key_value h key) λ n. apply c err fmt [] (q n)

unfoldable pub flag_option : Client → Fields → String → String → String → String → Action
unfolding on_bool apply
flag_option c h key err fmt f =
    on_bool (get_key_value h key) λ b. apply c err fmt [] (flag_setting f b)

-- an option that is a file, which is checked first
unfoldable pub file_option :
    Client → Fields → String → String → String → (String → Setting) → Action
unfolding on_string run check_file apply
file_option c h key err fmt q =
    on_string (get_key_value h key)
      λ path. run (check_file c path ∷ apply c err fmt [] (q path) ∷ [])
