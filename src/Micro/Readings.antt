-- ===== src/Micro/Readings.antt =====
-- What a script reads in the statistics of QoreNatsMicroService::getStats
-- (src/QoreNatsMicroService.cpp).
use module_nats.Common.{
  ℤ, pos, String, ◌≡◌, refl, ap, ◌∙◌, true, Option, none, some, List, [], ◌∷◌, map, if◌then◌else◌,
}
use module_nats.Common.Int.{times}
use module_nats.Value.{Value, or_string, or_int}
use module_nats.Time.{Date, date_of_ns}
use module_nats.Runtime.{Result, ok, ◌>>=◌}
use module_nats.Message.{Refuses, set_key, set_some}
use module_nats.Hash.{
  Hash, empty, or_value, string_value, write, written, Agrees, set_key-agreed, new_hash,
  new_hash-agreed, all_pushed-agreed,
}
use package.text.Mathlib.Text.{◌==◌}
use module_nats.Micro.Report.{
  EndpointStats, ServiceStats, stats, allocated, destroyed, Client, State, log, alive, converted,
  Report, add_endpoints, sum, total_ns, last_error, endpoint_stats_writes, stats_writes,
  stats_to_hash, get_stats,
}

-- A key that holds a string, and one that holds an integer.
abbrev string_of : Hash → String → Option String
string_of h k = or_string (h k) none

abbrev int_of : Hash → String → ℤ
int_of h k = or_int (h k) (pos 0)

-- What a hash<NatsMicroEndpointStats> says.
pub record Reading : Type 0 where
  pub name : Option String
  pub subject : Option String
  pub num_requests : ℤ
  pub num_errors : ℤ
  pub processing_time_ns : ℤ
  pub average_processing_time_ns : ℤ
  pub last_error : Option String

abbrev pub reading : Hash → Reading
reading h = record {
  name = string_of h "name";
  subject = string_of h "subject";
  num_requests = int_of h "num_requests";
  num_errors = int_of h "num_errors";
  processing_time_ns = int_of h "processing_time_ns";
  average_processing_time_ns = int_of h "average_processing_time_ns";
  last_error = string_of h "last_error";
}

-- What it should say: the endpoint's own figures, its two times added up, and no empty error.
abbrev pub figures : EndpointStats → Reading
figures e = record {
  name = e.name;
  subject = e.subject;
  num_requests = e.num_requests;
  num_errors = e.num_errors;
  processing_time_ns =
      sum (times e.processing_time_seconds 1000000000) e.processing_time_nanoseconds;
  average_processing_time_ns = e.average_processing_time_nanoseconds;
  last_error = if e.last_error_string == "" then none else some e.last_error_string;
}

string_back : (s : Option String) → or_string (or_value (string_value s) Value.nothing) none ≡ s
string_back none = refl
string_back (some s) = refl

endpoint_back : (e : EndpointStats) → reading (written (endpoint_stats_writes e) empty) ≡ figures e
unfolding written write endpoint_stats_writes total_ns last_error
endpoint_back e = λ i. record (figures e) {
  name = string_back e.name i;
  subject = string_back e.subject i;
  last_error = string_back (figures e).last_error i;
}

endpoints_back :
    (es : List EndpointStats)
    → map reading (map (λ e. written (endpoint_stats_writes e) empty) es) ≡ map figures es
endpoints_back [] = refl
endpoints_back (e ∷ es) = λ i. endpoint_back e i ∷ endpoints_back es i

abbrev pub or_empty {ℓ} : {A : Type ℓ} → Option (List A) → List A
or_empty none = []
or_empty (some xs) = xs

set_some-agreed {ℓ} :
    {V : Type ℓ} (refuses : Refuses) (k : String) (v : Option V)
    → Agrees refuses
    → set_some refuses k v some none ≡ ok v
unfolding set_some
set_some-agreed refuses k none all = refl
set_some-agreed refuses k (some v) all = set_key-agreed refuses k (some v) all

-- the report of a conversion in which nothing is refused, but for its endpoints
abbrev start : ServiceStats → Report
start n = record {
  fields = written (stats_writes n) empty;
  started = date_of_ns n.started;
  endpoints = none;
}

-- The report has an entry for each endpoint, in order, with its figures.
abbrev pub Tells : ServiceStats → Report → Type 0
Tells n r =
    (string_of r.fields "name" ≡ n.name)
    × (string_of r.fields "version" ≡ n.version)
    × (string_of r.fields "id" ≡ n.id)
    × (r.started ≡ date_of_ns n.started)
    × (map reading (or_empty r.endpoints) ≡ map figures (or_empty n.endpoints))

module _ (refuses : Refuses) (all : Agrees refuses) where
  abbrev convert : EndpointStats → Result Hash
  convert e = new_hash refuses "NatsMicroEndpointStats" (endpoint_stats_writes e)

  start-Tells :
      (n : ServiceStats) (hs : Option (List Hash))
      → map reading (or_empty hs) ≡ map figures (or_empty n.endpoints)
      → Tells n (record (start n) { endpoints = hs })
  unfolding written write
  start-Tells n hs p = (string_back n.name, string_back n.version, string_back n.id, refl, p)

  added :
      (n : ServiceStats) (es : Option (List EndpointStats))
      → (hs : Option (List Hash)) × (add_endpoints refuses convert es (start n)
          ≡ ok (record (start n) { endpoints = hs }))
        × (map reading (or_empty hs) ≡ map figures (or_empty es))
  unfolding add_endpoints
  added n none = (none, refl, refl)
  added n (some []) = (none, refl, refl)
  added n (some (e ∷ es)) =
      let hs = map (λ e. written (endpoint_stats_writes e) empty) (e ∷ es) in
      let pushed =
        all_pushed-agreed refuses convert _ all
          (λ e. new_hash-agreed refuses "NatsMicroEndpointStats" (endpoint_stats_writes e) all)
          (e ∷ es) in
      (
        some hs,
        ap (λ r. r >>= λ hs. set_key refuses "endpoints" (record (start n) { endpoints = some hs }))
              pushed
            ∙ set_key-agreed refuses "endpoints" _ all,
        endpoints_back (e ∷ es),
      )

  stats_to_hash-Tells :
      (n : ServiceStats) → (r : Report) × (stats_to_hash refuses n ≡ ok r) × Tells n r
  unfolding stats_to_hash
  stats_to_hash-Tells n =
      let (hs, e, p) = added n n.endpoints in
      let k : Hash → Option Date → Result Report = λ h d.
        add_endpoints refuses convert n.endpoints
          (record { fields = h; started = d; endpoints = none }) in
      (
        record (start n) { endpoints = hs },
        ap (λ r. r >>= λ h. set_some refuses "started" (date_of_ns n.started) some none >>= k h)
              (new_hash-agreed refuses "NatsMicroServiceStats" (stats_writes n) all)
            ∙ ap (λ r. r >>= k (start n).fields)
                (set_some-agreed refuses "started" (date_of_ns n.started) all)
            ∙ e,
        start-Tells n hs p,
      )

-- When the service is set, the C client answers with its statistics and no key is refused, getStats
-- returns a hash and the statistics were destroyed behind it. A script that reads the hash finds the
-- name, the version, the id and the time of the start (none before the epoch), and for each endpoint,
-- in the C client's order, its own figures, with the seconds and nanoseconds of its processing time
-- added up.
pub get_stats-Tells :
    (c : Client) (s : State)
    → Agrees c.set_refuses
    → s.is_set ≡ true
    → c.get_stats.0 ≡ none
    → (r : Report) × (get_stats c s ≡ (ok r, log (destroyed stats) (log (allocated stats) s)))
      × Tells c.get_stats.1 r
unfolding get_stats alive converted
get_stats-Tells c s all on good =
    let (r, e, p) = stats_to_hash-Tells c.set_refuses all c.get_stats.1 in
    (r, (rw on (rw good (rw e refl))), p)
