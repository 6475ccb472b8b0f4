-- ===== src/Micro/Endpoint.antt =====
-- QoreNatsMicroService::addEndpoint and QoreNatsMicroGroup::addEndpoint, as runs of the steps of
-- Micro.Handlers.
use module_nats.Common.{
  ℕ, suc, ◌<◌, ◌≡◌, refl, ◌∙◌, ◌++◌, String, Bool, true, false, Option, none, some, List, [], ◌∷◌,
  arith, count, count-cons, ==_self, Bool-cases, inl, inr, if◌then◌else◌,
}
use module_nats.Value.{Value, Fields, get_key_value}
use module_nats.Runtime.{Exception, text, Result, ok, raise, raised, done}
use module_nats.Micro.Handlers.{
  System, made, refused, accepted, registered, remove, register_handler, release_handlers, Reach,
  later,
}
use module_nats.Micro.Handlers
use module_nats.Micro.Handlers.Released.{Reach-synced}

-- microEndpointConfig, as far as it is set
pub record EndpointConfig : Type 0 where
  pub name : String
  pub subject : Option String
  pub has_handler : Bool

-- `v.getType() == NT_STRING`
abbrev pub string_or_none : Value → Option String
string_or_none (Value.str s) = some s
string_or_none _ = none

-- `v.getType() != NT_NOTHING && v.getType() != NT_NULL`
abbrev pub is_given : Value → Bool
is_given Value.nothing = false
is_given Value.null = false
is_given _ = true

abbrev pub micro_error : String
micro_error = "NATS-MICRO-ERROR"

unfoldable pub endpoint_named : Option String → Fields → Result EndpointConfig
unfolding get_key_value
endpoint_named none config = raise (raised micro_error "endpoint config requires 'name' field" [])
endpoint_named (some name) config = ok (record {
  name = name;
  subject = string_or_none (get_key_value config "subject");
  has_handler = is_given (get_key_value config "handler");
})

unfoldable pub endpoint_config : Fields → Result EndpointConfig
unfolding get_key_value endpoint_named
endpoint_config config = endpoint_named (string_or_none (get_key_value config "name")) config

-- The context of a handler, once the C client answered with an error's text or none.
unfoldable pub context_kept : Option String → EndpointConfig → System → System
context_kept none e s = if e.has_handler then registered s.next (accepted s.next (made s)) else s
context_kept (some err) e s = if e.has_handler then refused s.next (made s) else s

-- What follows the C client's answer.
unfoldable pub endpoint_added :
    String → Option String → EndpointConfig → System → Result (Unit {0}) × System
unfolding context_kept
endpoint_added fmt none e s = (done, context_kept none e s)
endpoint_added fmt (some err) e s =
    (raise (raised micro_error fmt (text e.name ∷ text err ∷ [])), context_kept (some err) e s)

-- `answer` is what the C client returns for a configuration.
unfoldable pub answered :
    String
    → (EndpointConfig → Option String)
    → Result EndpointConfig
    → System
    → Result (Unit {0}) × System
unfolding endpoint_added
answered fmt answer (ok e) s = endpoint_added fmt (answer e) e s
answered fmt answer (raise x) s = (raise x, s)

-- QoreNatsMicroService::addEndpoint
unfoldable pub add_endpoint :
    (EndpointConfig → Option String) → Bool → Fields → System → Result (Unit {0}) × System
unfolding endpoint_config answered
add_endpoint answer is_set config s =
    if is_set
    then answered "failed to add endpoint '%s'" answer (endpoint_config config) s
    else (raise (raised micro_error "microservice has been destroyed" []), s)

-- QoreNatsMicroGroup::addEndpoint
unfoldable pub group_add_endpoint :
    (EndpointConfig → Option String) → Bool → Fields → System → Result (Unit {0}) × System
unfolding endpoint_config answered
group_add_endpoint answer is_set config s =
    if is_set
    then answered "failed to add endpoint '%s' to group" answer (endpoint_config config) s
    else (raise (raised micro_error "group has been destroyed" []), s)

fresh_counts : (x : ℕ) (xs : List ℕ) → 0 < count x (x ∷ xs)
fresh_counts x xs = let a = count-cons x x xs in let b = ==_self x in ground (arith, a, b)

pub context_kept-Reach :
    (err : Option String) (e : EndpointConfig) (s : System) → Reach s → Reach (context_kept err e s)
unfolding context_kept
context_kept-Reach none e s r = elim (Bool-cases e.has_handler) [
  | inl h ↦ rw h (
      later (later (later r Handlers.make) (Handlers.accept s.next (fresh_counts s.next s.adding)))
        (Handlers.register s.next (fresh_counts s.next s.added)))
  | inr h ↦ rw h r
]
context_kept-Reach (some err) e s r = elim (Bool-cases e.has_handler) [
  | inl h ↦
      rw h (later (later r Handlers.make) (Handlers.refuse s.next (fresh_counts s.next s.adding)))
  | inr h ↦ rw h r
]

endpoint_added-Reach :
    (fmt : String) (err : Option String) (e : EndpointConfig) (s : System)
    → Reach s
    → Reach (endpoint_added fmt err e s).1
unfolding endpoint_added
endpoint_added-Reach fmt none e s r = context_kept-Reach none e s r
endpoint_added-Reach fmt (some err) e s r = context_kept-Reach (some err) e s r

answered-Reach :
    (fmt : String) (answer : EndpointConfig → Option String) (c : Result EndpointConfig)
    (s : System)
    → Reach s
    → Reach (answered fmt answer c s).1
unfolding answered
answered-Reach fmt answer (ok e) s r = endpoint_added-Reach fmt (answer e) e s r
answered-Reach fmt answer (raise x) s r = r

-- What one call makes of the context of a handler, given the C client's answer and whether there is a
-- handler. The C client has the endpoint's context unless it refused.
pub data Settled (s : System) : Option String → Bool → System → Type 0 where
  plain : (err : Option String) → Settled s err false s
  kept :
      s.completed ≡ false
      → Settled s none true (record s {
        next = suc s.next;
        live = s.next ∷ s.live;
        state = record s.state { handlers = s.state.handlers ++ s.next ∷ [] };
      })
  late :
      s.completed ≡ true
      → Settled s none true (record s {
        next = suc s.next;
        live = s.next ∷ s.live;
        state = record s.state { released = s.next ∷ s.state.released };
      })
  deleted :
      (err : String)
      → Settled s (some err) true (record s {
        next = suc s.next;
        state = record s.state { released = s.next ∷ s.state.released };
      })

-- What one call answers for a configuration, with the state that it leaves.
pub data Outcome (answer : EndpointConfig → Option String) (fmt : String) (s : System)
    : Result EndpointConfig → Result (Unit {0}) × System → Type 0 where
  malformed : (x : Exception) → Outcome answer fmt s (raise x) (raise x, s)
  succeeds :
      (e : EndpointConfig) (t : System)
      → answer e ≡ none
      → Settled s none e.has_handler t
      → Outcome answer fmt s (ok e) (done, t)
  fails :
      (e : EndpointConfig) (err : String) (t : System)
      → answer e ≡ some err
      → Settled s (some err) e.has_handler t
      → Outcome answer fmt s
          (ok e)
          (raise (raised micro_error fmt (text e.name ∷ text err ∷ [])), t)

remove-head : (x : ℕ) (xs : List ℕ) → remove x (x ∷ xs) ≡ xs
unfolding remove
remove-head x xs = let a = ==_self x in ground (arith, a)

context_kept-Settled :
    (err : Option String) (name : String) (subject : Option String) (b : Bool) (s : System)
    → s.state.done ≡ s.completed
    → Settled s err b
        (context_kept err (record { name = name; subject = subject; has_handler = b }) s)
unfolding context_kept register_handler release_handlers
context_kept-Settled none name subject false s sync = plain none
context_kept-Settled (some err) name subject false s sync = plain (some err)
context_kept-Settled none name subject true s sync = elim (Bool-cases s.completed) [
  | inl over ↦ rw (remove-head s.next s.adding, remove-head s.next s.added, sync ∙ over) (late over)
  | inr on ↦ rw (remove-head s.next s.adding, remove-head s.next s.added, sync ∙ on) (kept on)
]
context_kept-Settled (some err) name subject true s sync =
    rw (remove-head s.next s.adding) (deleted err)

pub endpoint-Settled :
    (err : Option String) (e : EndpointConfig) (s : System)
    → Reach s
    → Settled s err e.has_handler (context_kept err e s)
endpoint-Settled err e s r =
    context_kept-Settled err e.name e.subject e.has_handler s (Reach-synced r)

answer_case-Outcome :
    (answer : EndpointConfig → Option String) (fmt : String) (e : EndpointConfig) (s : System)
    (err : Option String)
    → answer e ≡ err
    → Reach s
    → Outcome answer fmt s (ok e) (endpoint_added fmt err e s)
unfolding endpoint_added
answer_case-Outcome answer fmt e s none q r =
    succeeds e (context_kept none e s) q (endpoint-Settled none e s r)
answer_case-Outcome answer fmt e s (some err) q r =
    fails e err (context_kept (some err) e s) q (endpoint-Settled (some err) e s r)

answered-Outcome :
    (answer : EndpointConfig → Option String) (fmt : String) (c : Result EndpointConfig)
    (s : System)
    → Reach s
    → Outcome answer fmt s c (answered fmt answer c s)
unfolding answered
answered-Outcome answer fmt (ok e) s r = answer_case-Outcome answer fmt e s (answer e) refl r
answered-Outcome answer fmt (raise x) s r = malformed x

-- addEndpoint of a service and of a group, run alone on a reachable state, leads to a reachable state,
-- whatever the configuration and the C client's answer: what holds of all interleavings holds after it.
-- When the service or group is set, the call raises the configuration's own error and changes nothing;
-- or the C client added the endpoint and the call succeeds; or the C client refused and its error is
-- raised. Without a handler no context is made. With one, the context of an added endpoint is
-- registered, but deleted at once if the endpoints are complete; that of a refused one is deleted; and
-- nothing else changes.
pub add_endpoint-Reach :
    (answer : EndpointConfig → Option String) (is_set : Bool) (config : Fields) (s : System)
    → Reach s
    → Reach (add_endpoint answer is_set config s).1
      × Reach (group_add_endpoint answer is_set config s).1
      × Outcome answer "failed to add endpoint '%s'" s
          (endpoint_config config)
          (add_endpoint answer true config s)
      × Outcome answer "failed to add endpoint '%s' to group" s
          (endpoint_config config)
          (group_add_endpoint answer true config s)
unfolding add_endpoint group_add_endpoint
add_endpoint-Reach answer true config s r = (
  answered-Reach _ answer (endpoint_config config) s r,
  answered-Reach _ answer (endpoint_config config) s r,
  answered-Outcome answer _ (endpoint_config config) s r,
  answered-Outcome answer _ (endpoint_config config) s r,
)
add_endpoint-Reach answer false config s r = (
  r,
  r,
  answered-Outcome answer _ (endpoint_config config) s r,
  answered-Outcome answer _ (endpoint_config config) s r,
)
