-- ===== src/Connection/Info/Tests.antt =====
-- Runs of the getters of QoreNatsConnection (src/QoreNatsConnection.cpp) on concrete answers.
use module_nats.Common.{pos, String, ◌≡◌, refl, ltb, ◌&&◌, true, false, Option, some, List, [], ◌∷◌}
use module_nats.Runtime.{Status, raise, set_failed}
use module_nats.Message.{Refuses}
use module_nats.Connection.Info.{Which, known, discovered, array, entry, Client, State, get_servers}
use module_nats.Connection.Info.Overview.{get_connection_info}
use module_nats.Connection.Info.Released.{taken, given}
use module_nats.Connection.Info.Sessions.{
  Session, opened, later, reads_servers, reads_connection_info, Session-freed,
}
use text.Mathlib.Text.{◌==◌}

abbrev two_servers : Which → Status × Option (List String)
two_servers known = (Status.nats_ok, some ("nats://a" ∷ "nats://b" ∷ []))
two_servers discovered = (Status.nats_ok, some [])

abbrev client : Refuses → Client
client refuses = record {
  check_cancel = λ t. false;
  status = pos 1;
  closed_status = pos 2;
  connected_url = (Status.nats_ok, "nats://a");
  server_id = (Status.nats_ok, "ID");
  client_id = (Status.nats_ok, 5);
  client_ip = (Status.nats_ok, some "10.0.0.1");
  rtt = (Status.nats_timeout, pos 0);
  max_payload = pos 1048576;
  header_support = Status.nats_ok;
  local_ip_and_port = (Status.nats_ok, some "10.0.0.1", pos 4000);
  is_reconnecting = false;
  is_draining = false;
  buffered = pos 0;
  create_statistics = Status.nats_ok;
  get_stats = Status.nats_ok;
  get_counts = (
    Status.nats_ok,
    record { in_msgs = 1; in_bytes = 2; out_msgs = 3; out_bytes = 4; reconnects = 0 },
  );
  servers = two_servers;
  set_refuses = refuses;
  push_refuses = λ w i. ltb 0 i && refuses "push";
}

-- One client whose list refuses the second entry, and one that refuses nothing.
abbrev strict : Client
strict = client λ k. k == "push"

abbrev lenient : Client
lenient = client λ k. false

abbrev start : State
start = record { is_set = true; trace = [] }

refused : (get_servers strict start).0 ≡ raise (set_failed "push")
unfolding get_servers
refused = refl

second_freed : given (entry known 1) (get_servers strict start).1.trace ≡ 1
unfolding get_servers given
second_freed = refl

abbrev final : State
final = (get_connection_info lenient (get_servers strict start).1).1

getters : Session true final
getters = later (later opened (reads_servers strict)) (reads_connection_info lenient)

Session-freed_example : taken (array known) final.trace ≡ given (array known) final.trace
Session-freed_example = Session-freed (array known) getters
