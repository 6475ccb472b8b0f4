-- ===== src/Connection/Permitted/Tests.antt =====
-- Runs of the constructors of QoreNatsConnection (src/QoreNatsConnection.cpp) on concrete options.
use module_nats.Common.{pos, ◌≡◌, refl, true, none, some, [], ◌∷◌}
use module_nats.Runtime.{Status, done}
use module_nats.Url.{parse_nats_url}
use module_nats.Value.{get_key_value, Value, Fields, field, end, cons, nil}
use module_nats.Connection.Setup.{Client, new_setup, apply, check_file, check_url}
use module_nats.Connection.Options.{servers_option}
use module_nats.Connection.Construct.{construct, construct_url, hold}
use module_nats.Connection.Permitted.{Checked, told_timeout}
use module_nats.Connection.Permitted.Constructors.{Dialed, construct-Checked, construct-Dialed}

-- Two files, two servers, a timeout, a callback and TLS.
abbrev options : Fields
options = field "url" (Value.str "nats://a") (
    field "credentials" (Value.str "user.creds") (
      field "connect_timeout_ms" (Value.int (pos 500)) (
        field "no_randomize" (Value.bool true) (
          field "servers" (Value.list (cons (Value.str "nats://b") (cons (Value.str "") nil))) (
            field "on_error" (Value.call_reference 1)
              (field "tls" (Value.hash (field "ca_cert" (Value.str "ca.pem") end)) end))))))

-- A sandbox that permits all.
abbrev sandbox : Client
sandbox = record {
  create_options = Status.nats_ok;
  apply = λ t q. Status.nats_ok;
  policy = record {
    sandboxed = true;
    check_hostname = λ host port. true;
    resolve = λ host. some (7 ∷ []);
    check_network_access = λ a port. true;
  };
  bytes = λ s. 97 ∷ [];
  check_file = λ t path. true;
  connect = λ t. (Status.nats_ok, none);
  default_timeout = 2000;
}

construct-done :
    ((construct sandbox options new_setup).0 ≡ done)
    × (told_timeout (construct sandbox options new_setup).1.trace ≡ pos 500)
unfolding construct hold apply check_url check_file get_key_value servers_option parse_nats_url
construct-done = (refl, refl)

files_example :
    Checked (construct sandbox options new_setup).1.trace
    × Checked (construct_url sandbox "nats://a" new_setup).1.trace
files_example = construct-Checked sandbox options "nats://a"

agreement_example :
    ((construct sandbox options new_setup).0 ≡ done
      → Dialed sandbox (construct sandbox options new_setup).1)
    × ((construct_url sandbox "nats://a" new_setup).0 ≡ done
        → Dialed sandbox (construct_url sandbox "nats://a" new_setup).1)
agreement_example = construct-Dialed sandbox options "nats://a"
