-- ===== src/Url/Tests.antt =====
-- The theorem on URLs at a concrete one: "tls://u:p@h.x:4443".
use module_nats.Common.{◌≡◌, refl, true, ◌⊎◌, some, [], ◌∷◌, arith}
use module_nats.ReplyMux.Decimal.{to_string}
use module_nats.Url.{parse_nats_url, strip_slash}
use module_nats.Url.Access.{
  Policy, Permits, allowed, check_nats_network_access, check_nats_network_access-Permits,
}
use module_nats.Url.Parts.{UrlParts, Proper, print, default_port, parse_nats_url-print}

abbrev url : UrlParts
url = record {
  tls = true;
  userinfo = some (117 ∷ 58 ∷ 112 ∷ []);
  host = 104 ∷ 46 ∷ 120 ∷ [];
  port = some 4443;
}

url-Proper : Proper url
unfolding strip_slash
url-Proper = record {
  host_plain = ((λ e. omega (arith, e)), ((λ e. omega (arith, e)), ((λ e. omega (arith, e)), tt)));
  host_end = refl;
  host_colon = λ e. cc;
  port_int = omega arith;
  user_plain = ((λ e. omega (arith, e)), ((λ e. omega (arith, e)), ((λ e. omega (arith, e)), tt)));
}

parse_nats_url-print_example : parse_nats_url (print url) ≡ (url.host, default_port url.port)
parse_nats_url-print_example = parse_nats_url-print url url-Proper

abbrev policy : Policy
policy = record {
  sandboxed = true;
  check_hostname = λ host port. true;
  resolve = λ host. some (7 ∷ 8 ∷ []);
  check_network_access = λ a port. true;
}

let_through : check_nats_network_access policy (print url) ≡ allowed
unfolding check_nats_network_access to_string parse_nats_url
let_through = refl

check_nats_network_access-Permits_example :
    ((parse_nats_url (print url)).0 ≡ [])
    ⊎ Permits policy (parse_nats_url (print url)).0 (parse_nats_url (print url)).1
check_nats_network_access-Permits_example =
    check_nats_network_access-Permits policy (print url) refl let_through
