-- ===== src/Connection/Options.antt =====
-- QoreNatsConnection::configureOptions (src/QoreNatsConnection.cpp).
use module_nats.Common.{
  pos, String, Bool, true, false, Option, none, some, List, [], ◌∷◌, if◌then◌else◌,
}
use module_nats.Common.Int.{int32}
use module_nats.Value.{Value, Values, Fields, get_key_value, or_int, texts}
use module_nats.Connection.Setup.{
  Client, Action, int_setting, flag_setting, user_info, reconnect_jitter, url, servers,
  nkey_from_seed, user_credentials, ca_certificates, certificates_chain, timeout,
  ip_resolution_order, no_randomize, skip, next, run, apply, check_url, check_file, on_string,
  on_int, on_hash, on_true, string_option, int_option, flag_option, file_option,
}
use text.Mathlib.Text.{◌==◌}

abbrev pub connection_error : String
connection_error = "NATS-CONNECTION-ERROR"

abbrev pub auth_error : String
auth_error = "NATS-AUTH-ERROR"

abbrev pub tls_error : String
tls_error = "NATS-TLS-ERROR"

-- a string or a null pointer
abbrev pub string_or_null : Value → Option String
string_or_null (Value.str s) = some s
string_or_null _ = none

-- "username" and "password"
unfoldable pub user_option : Client → Fields → Action
unfolding on_string apply
user_option c h = on_string (get_key_value h "username") λ user.
    apply c auth_error "failed to set user info" []
      (user_info user (string_or_null (get_key_value h "password")))

-- "nkey_seed" and "nkey_pub"
unfoldable pub nkey_option : Client → Fields → Action
unfolding on_string run check_file apply
nkey_option c h = on_string (get_key_value h "nkey_seed") λ seed. run (
    check_file c seed
    ∷ apply c auth_error "failed to set NKey seed" []
        (nkey_from_seed (string_or_null (get_key_value h "nkey_pub")) seed)
    ∷ [])

-- "connect_timeout_ms", which is kept for the dialer
unfoldable pub timeout_option : Client → Fields → Action
unfolding on_int apply
timeout_option c h = on_int (get_key_value h "connect_timeout_ms") λ n s.
    apply c connection_error "failed to set connect timeout" [] (timeout n)
      (record s { connect_timeout_ms = n })

-- "no_randomize", the same
unfoldable pub randomize_option : Client → Fields → Action
unfolding on_true apply
randomize_option c h = on_true (get_key_value h "no_randomize") λ s.
    apply c connection_error "failed to set no randomize" [] no_randomize
      (record s { keep_order = true })

-- "ip_resolution_order", the same
unfoldable pub order_option : Client → Fields → Action
unfolding on_int apply
order_option c h = on_int (get_key_value h "ip_resolution_order") λ n s.
    apply c connection_error "failed to set IP resolution order" [] (ip_resolution_order (int32 n))
      (record s { ip_order = int32 n })

-- the loop that checks the servers
unfoldable pub check_servers : Client → List String → Action
unfolding skip next check_url
check_servers c [] = skip
check_servers c (u ∷ us) =
    let rest = check_servers c us in if u == "" then rest else λ s. next rest (check_url c u s)

-- `if (count > 0)`
unfoldable pub set_servers : Client → List String → Action
unfolding skip run check_servers apply
set_servers c [] = skip
set_servers c (u ∷ us) = run (
    check_servers c (u ∷ us)
    ∷ apply c connection_error "failed to set servers" [] (servers (u ∷ us))
    ∷ [])

unfoldable pub on_list : Value → (Values → Action) → Action
unfolding skip
on_list (Value.list vs) f = f vs
on_list _ f = skip

-- "servers"
unfoldable pub servers_option : Client → Fields → Action
unfolding on_list set_servers
servers_option c h = on_list (get_key_value h "servers") λ vs. set_servers c (texts vs)

unfoldable pub is_int : Value → Bool
is_int (Value.int n) = true
is_int _ = false

-- "reconnect_jitter_ms" and "reconnect_jitter_tls_ms"
unfoldable pub jitter_option : Client → Fields → Action
unfolding is_int apply skip
jitter_option c h =
    let jitter = get_key_value h "reconnect_jitter_ms" in
    let tls = get_key_value h "reconnect_jitter_tls_ms" in
    let set =
      apply c connection_error "failed to set reconnect jitter" []
        (reconnect_jitter (or_int jitter (pos 0)) (or_int tls (pos 0))) in
    if is_int jitter then set else (if is_int tls then set else skip)

-- "client_cert" and "client_key"
unfoldable pub certificate_option : Client → Fields → Action
unfolding on_string run check_file apply
certificate_option c h = on_string (get_key_value h "client_cert") λ cert.
    on_string (get_key_value h "client_key") λ key. run (
      check_file c cert
      ∷ check_file c key
      ∷ apply c tls_error "failed to load client certificate/key" [] (certificates_chain cert key)
      ∷ [])

unfoldable pub verify_option : Client → Fields → Action
unfolding on_true apply
verify_option c h = on_true (get_key_value h "skip_verify") (
    apply c tls_error "failed to set skip server verification" []
      (flag_setting "natsOptions_SkipServerVerification" true))

unfoldable pub handshake_option : Client → Fields → Action
unfolding on_true apply
handshake_option c h = on_true (get_key_value h "tls_handshake_first") (
    apply c tls_error "failed to set TLS handshake first" []
      (flag_setting "natsOptions_TLSHandshakeFirst" true))

-- the options of the hash "tls"
unfoldable pub tls_options : Client → Fields → List Action
unfolding apply string_option file_option certificate_option verify_option handshake_option
tls_options c h =
    apply c tls_error "failed to enable TLS" [] (flag_setting "natsOptions_SetSecure" true)
    ∷ file_option c h "ca_cert" tls_error "failed to load CA certificates" ca_certificates
    ∷ certificate_option c h
    ∷ verify_option c h
    ∷ string_option c h "ciphers" tls_error "failed to set TLS ciphers" "natsOptions_SetCiphers"
    ∷ string_option c h "cipher_suites" tls_error "failed to set TLS cipher suites"
        "natsOptions_SetCipherSuites"
    ∷ string_option c h "expected_hostname" tls_error "failed to set expected hostname"
        "natsOptions_SetExpectedHostname"
    ∷ handshake_option c h
    ∷ []

unfoldable pub tls_option : Client → Fields → Action
unfolding on_hash run tls_options
tls_option c h = on_hash (get_key_value h "tls") λ tls. run (tls_options c tls)

-- "url", which the constructor checks
unfoldable pub url_option : Client → Fields → Action
unfolding on_string apply
url_option c h =
    on_string (get_key_value h "url") λ u. apply c connection_error "failed to set URL" [] (url u)

-- The options up to the servers, ...
unfoldable pub options_before : Client → Fields → List Action
unfolding url_option string_option user_option nkey_option file_option timeout_option int_option
    randomize_option
options_before c h =
    url_option c h
    ∷ string_option c h "token" auth_error "failed to set token" "natsOptions_SetToken"
    ∷ user_option c h
    ∷ nkey_option c h
    ∷ file_option c h "credentials" auth_error "failed to set credentials file" user_credentials
    ∷ string_option c h "name" connection_error "failed to set connection name"
        "natsOptions_SetName"
    ∷ timeout_option c h
    ∷ int_option c h "reconnect_wait_ms" connection_error "failed to set reconnect wait"
        (int_setting "natsOptions_SetReconnectWait")
    ∷ int_option c h "max_reconnect" connection_error "failed to set max reconnect"
        (λ n. int_setting "natsOptions_SetMaxReconnect" (int32 n))
    ∷ int_option c h "ping_interval" connection_error "failed to set ping interval"
        (int_setting "natsOptions_SetPingInterval")
    ∷ int_option c h "max_pings_out" connection_error "failed to set max pings out"
        (λ n. int_setting "natsOptions_SetMaxPingsOut" (int32 n))
    ∷ randomize_option c h
    ∷ servers_option c h
    ∷ []

-- ... and the others.
unfoldable pub options_after : Client → Fields → List Action
unfolding flag_option jitter_option int_option order_option string_option tls_option
options_after c h =
    flag_option c h "no_echo" connection_error "failed to set no echo" "natsOptions_SetNoEcho"
    ∷ flag_option c h "send_asap" connection_error "failed to set send asap"
        "natsOptions_SetSendAsap"
    ∷ flag_option c h "allow_reconnect" connection_error "failed to set allow reconnect"
        "natsOptions_SetAllowReconnect"
    ∷ jitter_option c h
    ∷ int_option c h "reconnect_buf_size" connection_error "failed to set reconnect buffer size"
        (λ n. int_setting "natsOptions_SetReconnectBufSize" (int32 n))
    ∷ int_option c h "max_pending_msgs" connection_error "failed to set max pending messages"
        (λ n. int_setting "natsOptions_SetMaxPendingMsgs" (int32 n))
    ∷ int_option c h "max_pending_bytes" connection_error "failed to set max pending bytes"
        (int_setting "natsOptions_SetMaxPendingBytes")
    ∷ flag_option c h "fail_requests_on_disconnect" connection_error
        "failed to set fail requests on disconnect" "natsOptions_SetFailRequestsOnDisconnect"
    ∷ order_option c h
    ∷ int_option c h "write_deadline_ms" connection_error "failed to set write deadline"
        (int_setting "natsOptions_SetWriteDeadline")
    ∷ flag_option c h "disable_no_responders" connection_error "failed to disable no responders"
        "natsOptions_DisableNoResponders"
    ∷ string_option c h "custom_inbox_prefix" connection_error "failed to set custom inbox prefix"
        "natsOptions_SetCustomInboxPrefix"
    ∷ tls_option c h
    ∷ []

unfoldable pub configure_options : Client → Fields → Action
unfolding run options_before options_after
configure_options c h = run (run (options_before c h) ∷ run (options_after c h) ∷ [])
