-- ===== src/Micro/Report.antt =====
-- getInfo, getStats, isStopped and stop of QoreNatsMicroService (src/QoreNatsMicroService.cpp), with
-- what the C client allocates for them.
use module_nats.Common.{
  ℤ, String, Bool, true, Option, none, some, List, [], ◌∷◌, if◌then◌else◌, ◌+◌,
}
use module_nats.Common.Int.{times, pos_part, neg_part, sub_ℕ}
use module_nats.Time.{Date, date_of_ns}
use module_nats.Runtime.{text, Result, ok, raise, raised, done, ◌>>=◌}
use module_nats.Message.{Refuses, set_key, set_some}
use module_nats.Hash.{Hash, Write, new_hash, string_write, int_write, all_pushed}
use module_nats.Micro.Endpoint.{micro_error}
use package.text.Mathlib.Text.{◌==◌}

-- microEndpointInfo, microServiceInfo, microEndpointStats and microServiceStats: a string or an array
-- that is a null pointer is none.
pub record EndpointInfo : Type 0 where
  pub name : Option String
  pub subject : Option String

pub record ServiceInfo : Type 0 where
  pub name : Option String
  pub version : Option String
  pub description : Option String
  pub id : Option String
  pub endpoints : Option (List EndpointInfo)

pub record EndpointStats : Type 0 where
  pub name : Option String
  pub subject : Option String
  pub num_requests : ℤ
  pub num_errors : ℤ
  pub processing_time_seconds : ℤ
  pub processing_time_nanoseconds : ℤ
  pub average_processing_time_nanoseconds : ℤ
  pub last_error_string : String

pub record ServiceStats : Type 0 where
  pub name : Option String
  pub version : Option String
  pub id : Option String
  pub started : ℤ
  pub endpoints : Option (List EndpointStats)

-- What the C client allocates and the service destroys.
pub data Block : Type 0 where
  info stats : Block

pub data Event : Type 0 where
  allocated destroyed : Block → Event

-- The answers of the C client, each an error with its text or none, and of the Qore runtime.
pub record Client : Type 0 where
  pub stop : Option String
  pub is_stopped : Bool
  pub get_info : Option String × ServiceInfo
  pub get_stats : Option String × ServiceStats
  pub set_refuses : Refuses

-- `is_set` says whether the service pointer is set.
pub record State : Type 0 where
  pub is_set : Bool
  pub trace : List Event

abbrev pub log : Event → State → State
log e s = record s { trace = e ∷ s.trace }

-- `if (!svc)`, and the rest of the method
unfoldable pub alive {ℓ} : {A : Type ℓ} → (State → Result A × State) → State → Result A × State
alive rest s =
    if s.is_set
    then rest s
    else (raise (raised micro_error "microservice has been destroyed" []), s)

-- What follows the C client's answer. The structure is destroyed behind its conversion, and on each
-- return from within it.
unfoldable pub converted {ℓ κ} :
    {A : Type ℓ} {B : Type κ}
    → Block
    → String
    → (A → Result B)
    → Option String × A
    → State
    → Result B × State
converted b fmt convert (some err, a) s = (raise (raised micro_error fmt (text err ∷ [])), s)
converted b fmt convert (none, a) s = (convert a, log (destroyed b) (log (allocated b) s))

unfoldable pub stop_case : Option String → State → Result (Unit {0}) × State
stop_case (some err) s =
    (raise (raised micro_error "failed to stop microservice" (text err ∷ [])), s)
stop_case none s = (done, s)

unfoldable pub stop : Client → State → Result (Unit {0}) × State
unfolding alive stop_case
stop c = alive (stop_case c.stop)

unfoldable pub is_stopped : Client → State → Bool
is_stopped c s = if s.is_set then c.is_stopped else true

-- A hash of a declared type: its key "started", which is a date, its key "endpoints", and the others.
pub record Report : Type 0 where
  pub fields : Hash
  pub started : Option Date
  pub endpoints : Option (List Hash)

-- `if (x->Endpoints && x->EndpointsLen > 0)`, the loop, and the key
unfoldable pub add_endpoints :
    {A : Type 0} → Refuses → (A → Result Hash) → Option (List A) → Report → Result Report
unfolding all_pushed set_key
add_endpoints refuses convert (some (e ∷ es)) r = all_pushed refuses convert (e ∷ es) >>= λ hs.
    set_key refuses "endpoints" (record r { endpoints = some hs })
add_endpoints refuses convert _ r = ok r

abbrev pub endpoint_info_writes : EndpointInfo → List Write
endpoint_info_writes e = string_write "name" e.name ∷ string_write "subject" e.subject ∷ []

abbrev pub info_writes : ServiceInfo → List Write
info_writes i =
    string_write "name" i.name
    ∷ string_write "version" i.version
    ∷ string_write "description" i.description
    ∷ string_write "id" i.id
    ∷ []

unfoldable pub info_to_hash : Refuses → ServiceInfo → Result Report
unfolding new_hash add_endpoints
info_to_hash refuses i = do
  h ← new_hash refuses "NatsMicroServiceInfo" (info_writes i)
  add_endpoints refuses (λ e. new_hash refuses "NatsMicroEndpointInfo" (endpoint_info_writes e))
      i.endpoints (record { fields = h; started = none; endpoints = none })

unfoldable pub get_info : Client → State → Result Report × State
unfolding alive converted info_to_hash
get_info c =
    alive (converted info "failed to get microservice info" (info_to_hash c.set_refuses) c.get_info)

-- a + b, as an integer
abbrev pub sum : ℤ → ℤ → ℤ
sum a b = sub_ℕ (pos_part a + pos_part b) (neg_part a + neg_part b)

-- `ProcessingTimeSeconds * 1000000000LL + ProcessingTimeNanoseconds`, as long as the sum fits an int64
unfoldable pub total_ns : EndpointStats → ℤ
unfolding times
total_ns e = sum (times e.processing_time_seconds 1000000000) e.processing_time_nanoseconds

-- `if (LastErrorString[0] != '\0')`
unfoldable pub last_error : String → Option String
last_error s = if s == "" then none else some s

unfoldable pub endpoint_stats_writes : EndpointStats → List Write
unfolding total_ns last_error
endpoint_stats_writes e =
    string_write "name" e.name
    ∷ string_write "subject" e.subject
    ∷ int_write "num_requests" e.num_requests
    ∷ int_write "num_errors" e.num_errors
    ∷ int_write "processing_time_ns" (total_ns e)
    ∷ int_write "average_processing_time_ns" e.average_processing_time_nanoseconds
    ∷ string_write "last_error" (last_error e.last_error_string)
    ∷ []

abbrev pub stats_writes : ServiceStats → List Write
stats_writes n =
    string_write "name" n.name ∷ string_write "version" n.version ∷ string_write "id" n.id ∷ []

unfoldable pub stats_to_hash : Refuses → ServiceStats → Result Report
unfolding new_hash add_endpoints endpoint_stats_writes set_some date_of_ns
stats_to_hash refuses n = do
  h ← new_hash refuses "NatsMicroServiceStats" (stats_writes n)
  d ← set_some refuses "started" (date_of_ns n.started) some none
  add_endpoints refuses (λ e. new_hash refuses "NatsMicroEndpointStats" (endpoint_stats_writes e))
      n.endpoints (record { fields = h; started = d; endpoints = none })

unfoldable pub get_stats : Client → State → Result Report × State
unfolding alive converted stats_to_hash
get_stats c =
    alive
      (converted stats "failed to get microservice stats" (stats_to_hash c.set_refuses) c.get_stats)
