-- ===== src/Micro/Construct.antt =====
-- The constructor of QoreNatsMicroService (src/QoreNatsMicroService.cpp), as a run of the steps of
-- Micro.Handlers.
use module_nats.Common.{◌≡◌, refl, String, Option, none, some, [], ◌∷◌}
use module_nats.Value.{Value, Fields, get_key_value}
use module_nats.Runtime.{Exception, text, Result, ok, raise, raised, done, ◌>>=◌}
use module_nats.Micro.Handlers.{System, created, Reach}
use module_nats.Micro.Endpoint.{
  EndpointConfig, micro_error, string_or_none, endpoint_config, context_kept, context_kept-Reach,
  Settled, endpoint-Settled,
}

-- microServiceConfig, as far as it is set from the hash
pub record ServiceConfig : Type 0 where
  pub name : String
  pub version : String
  pub description : Option String
  pub endpoint : Option EndpointConfig

-- `if (v_endpoint.getType() == NT_HASH)`
unfoldable pub default_endpoint : Value → Result (Option EndpointConfig)
unfolding endpoint_config
default_endpoint (Value.hash fields) = endpoint_config fields >>= λ e. ok (some e)
default_endpoint v = ok none

unfoldable pub service_named : Option String → Option String → Fields → Result ServiceConfig
unfolding get_key_value default_endpoint
service_named (some name) (some version) config =
    default_endpoint (get_key_value config "endpoint") >>= λ e. ok (record {
      name = name;
      version = version;
      description = string_or_none (get_key_value config "description");
      endpoint = e;
    })
service_named name version config =
    raise (raised micro_error "microservice config requires 'name' and 'version' fields" [])

unfoldable pub service_config : Fields → Result ServiceConfig
unfolding get_key_value service_named
service_config config =
    service_named (string_or_none (get_key_value config "name"))
      (string_or_none (get_key_value config "version")) config

-- What becomes of the default endpoint's context.
unfoldable pub default_kept : Option String → Option EndpointConfig → System → System
unfolding context_kept
default_kept err none s = s
default_kept err (some e) s = context_kept err e s

unfoldable pub service_case : String → Option String → Result (Unit {0})
service_case name none = done
service_case name (some err) =
    raise (raised micro_error "failed to create microservice '%s'" (text name ∷ text err ∷ []))

unfoldable pub service_added :
    (ServiceConfig → Option String) → Result ServiceConfig → Result (Unit {0}) × System
unfolding default_kept service_case
service_added answer (ok g) =
    (service_case g.name (answer g), default_kept (answer g) g.endpoint created)
service_added answer (raise x) = (raise x, created)

-- `answer` is what the C client returns for a configuration.
unfoldable pub construct : (ServiceConfig → Option String) → Fields → Result (Unit {0}) × System
unfolding service_config service_added
construct answer config = service_added answer (service_config config)

-- What is left of the default endpoint: nothing where there is none.
abbrev pub Left : Option String → Option EndpointConfig → System → Type 0
Left err none t = t ≡ created
Left err (some e) t = Settled created err e.has_handler t

default_kept-Reach :
    (err : Option String) (e : Option EndpointConfig) → Reach (default_kept err e created)
unfolding default_kept
default_kept-Reach err none = Reach.start
default_kept-Reach err (some e) = context_kept-Reach err e created Reach.start

-- What a run of the constructor answers for a configuration, with the state that it leaves.
pub data Outcome (answer : ServiceConfig → Option String)
    : Result ServiceConfig → Result (Unit {0}) × System → Type 0 where
  malformed : (x : Exception) → Outcome answer (raise x) (raise x, created)
  succeeds :
      (g : ServiceConfig) (t : System)
      → answer g ≡ none
      → Left none g.endpoint t
      → Outcome answer (ok g) (done, t)
  fails :
      (g : ServiceConfig) (err : String) (t : System)
      → answer g ≡ some err
      → Left (some err) g.endpoint t
      → Outcome answer (ok g) (
        raise
            (raised micro_error "failed to create microservice '%s'" (text g.name ∷ text err ∷ [])),
        t,
      )

default_kept-Left :
    (err : Option String) (e : Option EndpointConfig) → Left err e (default_kept err e created)
unfolding default_kept
default_kept-Left err none = refl
default_kept-Left err (some e) = endpoint-Settled err e created Reach.start

answer_case-Outcome :
    (answer : ServiceConfig → Option String) (g : ServiceConfig) (err : Option String)
    → answer g ≡ err
    → Outcome answer (ok g) (service_case g.name err, default_kept err g.endpoint created)
unfolding service_case
answer_case-Outcome answer g none q = succeeds g _ q (default_kept-Left none g.endpoint)
answer_case-Outcome answer g (some err) q =
    fails g err _ q (default_kept-Left (some err) g.endpoint)

service_added-Reach :
    (answer : ServiceConfig → Option String) (g : Result ServiceConfig)
    → Reach (service_added answer g).1 × Outcome answer g (service_added answer g)
unfolding service_added
service_added-Reach answer (ok g) =
    (default_kept-Reach (answer g) g.endpoint, answer_case-Outcome answer g (answer g) refl)
service_added-Reach answer (raise x) = (Reach.start, malformed x)

-- The constructor, whatever the configuration and the C client's answer, leads to a reachable state of
-- the handler contexts. It raises the configuration's own error and makes no context; or the C client
-- added the service and the constructor succeeds; or the C client refused and its error is raised. The
-- context of the default endpoint's handler, if there is one, is registered when the service was added,
-- and deleted when it was not; no other context is made.
pub construct-Reach :
    (answer : ServiceConfig → Option String) (config : Fields)
    → Reach (construct answer config).1
      × Outcome answer (service_config config) (construct answer config)
unfolding construct
construct-Reach answer config = service_added-Reach answer (service_config config)
