-- ===== src/Micro/Tests.antt =====
-- The theorems on microservices at concrete runs.
use module_nats.Common.{
  ◌+◌, ◌≤◌, ◌<◌, ◌≡◌, ◌⊎◌, if◌then◌else◌, ltb, refl, String, pos, some, false, true, false, Option,
  none, [], ◌∷◌, arith, count, count-cons,
}
use module_nats.Value.{Value, Fields, end, field}
use module_nats.Micro.Handlers.{
  System, register_handler, service_done, created, registered, accepted, made, Reach, later,
}
use module_nats.Micro.Handlers
use module_nats.Micro.Endpoint
use module_nats.Micro.Endpoint.{
  EndpointConfig, add_endpoint, group_add_endpoint, add_endpoint-Reach,
}
use module_nats.Runtime.{ok}
use module_nats.Micro.Report
use module_nats.Micro.Readings.{Tells, get_stats-Tells}
use module_nats.Micro.Construct.{ServiceConfig, service_config, Outcome, construct, construct-Reach}
use module_nats.Micro.Handlers.Released.{Reach-Released}

abbrev config : Fields
config = field "name" (Value.str "echo") (field "handler" (Value.call_reference 1) end)

abbrev answer : EndpointConfig → Option String
answer e = none

add_endpoint-Reach_example :
    Reach (add_endpoint answer true config created).1
    × Reach (group_add_endpoint answer true config created).1
    × Endpoint.Outcome answer "failed to add endpoint '%s'" created
        (Endpoint.endpoint_config config)
        (add_endpoint answer true config created)
    × Endpoint.Outcome answer "failed to add endpoint '%s' to group" created
        (Endpoint.endpoint_config config)
        (group_add_endpoint answer true config created)
add_endpoint-Reach_example = add_endpoint-Reach answer true config created Reach.start

-- One endpoint is added, and the service completes.
abbrev running : System
running = registered 0 (accepted 0 (made created))

abbrev stopped : System
stopped = record running { completed = true; state = service_done running.state }

one : 0 < count 0 (0 ∷ [])
one = let a = count-cons 0 0 [] in ground (arith, a)

running-Reach : Reach running
running-Reach =
    later (later (later Reach.start Handlers.make) (Handlers.accept 0 one))
      (Handlers.register 0 one)

Reach-Released_example :
    (stopped.misused ≡ 0)
    × (count 0 stopped.state.released ≤ 1)
    × ((stopped.completed ≡ false)
        ⊎ (count 0 stopped.adding + count 0 stopped.added + count 0 stopped.state.released
            ≡ (if ltb 0 stopped.next then 1 else 0)))
Reach-Released_example = Reach-Released 0 (later running-Reach (Handlers.complete refl))

-- The statistics of a service with two endpoints, the second of which failed once.
abbrev client : Report.Client
client = record {
  stop = none;
  is_stopped = false;
  get_info = (
    none,
    record { name = none; version = none; description = none; id = none; endpoints = none },
  );
  get_stats = (
    none,
    record {
      name = some "echo";
      version = some "1.0.0";
      id = some "X1";
      started = pos 1700000000123456789;
      endpoints = some (
          record {
            name = some "say";
            subject = some "echo.say";
            num_requests = pos 3;
            num_errors = pos 0;
            processing_time_seconds = pos 2;
            processing_time_nanoseconds = pos 7;
            average_processing_time_nanoseconds = pos 666666669;
            last_error_string = "";
          }
          ∷ record {
            name = some "fail";
            subject = none;
            num_requests = pos 1;
            num_errors = pos 1;
            processing_time_seconds = pos 0;
            processing_time_nanoseconds = pos 9;
            average_processing_time_nanoseconds = pos 9;
            last_error_string = "no such file";
          }
          ∷ []);
    },
  );
  set_refuses = λ k. false;
}

abbrev idle : Report.State
idle = record { is_set = true; trace = [] }

get_stats-Tells_example :
    (r : Report.Report) × (Report.get_stats client idle ≡ (
      ok r,
      Report.log (Report.destroyed Report.stats) (Report.log (Report.allocated Report.stats) idle),
    ))
    × Tells client.get_stats.1 r
get_stats-Tells_example = get_stats-Tells client idle (λ k. refl) refl refl

abbrev service : Fields
service =
    field "name" (Value.str "echo")
      (field "version" (Value.str "1.0.0") (field "endpoint" (Value.hash config) end))

-- The C client refuses a service with a default endpoint.
abbrev refusal : ServiceConfig → Option String
refusal g = some "503"

construct-Reach_example :
    Reach (construct refusal service).1
    × Outcome refusal (service_config service) (construct refusal service)
construct-Reach_example = construct-Reach refusal service
