-- ===== src/Connection/Registered/Tests.antt =====
-- A run of QoreNatsConnection::setupCallbacks (src/QoreNatsConnection.cpp) on concrete options.
use module_nats.Common.{◌≡◌, refl, true, ◌⊎◌, none, some, List, [], All}
use module_nats.Runtime.{Status, done}
use module_nats.Value.{Value, Fields, field, end, get_key_value}
use module_nats.Connection.Setup.{Callback, on_closed, Client, new_setup, apply}
use module_nats.Connection.Construct.{setup_callbacks, hold}
use module_nats.Connection.Registered.{Accepted, setup_callbacks-Accepted}

abbrev options : Fields
options =
    field "on_error" (Value.call_reference 1) (field "on_disconnect" (Value.call_reference 2) end)

abbrev client : Client
client = record {
  create_options = Status.nats_ok;
  apply = λ t q. Status.nats_ok;
  policy = record {
    sandboxed = true;
    check_hostname = λ host port. true;
    resolve = λ host. none;
    check_network_access = λ a port. true;
  };
  bytes = λ s. [];
  check_file = λ t path. true;
  connect = λ t. (Status.nats_ok, none);
  default_timeout = 2000;
}

succeeds : (setup_callbacks client options new_setup).0 ≡ done
unfolding setup_callbacks get_key_value hold apply
succeeds = refl

callbacks_example :
    ((setup_callbacks client options new_setup).1.context ≡ none)
    ⊎ ((ks : List Callback) × ((setup_callbacks client options new_setup).1.context ≡ some ks)
        × All (λ k. Accepted k (setup_callbacks client options new_setup).1.trace) ks
        × Accepted on_closed (setup_callbacks client options new_setup).1.trace)
callbacks_example = setup_callbacks-Accepted client options new_setup refl succeeds
