-- ===== src/Connection/Construct.antt =====
-- The constructors of QoreNatsConnection, with setupCallbacks, setupDialer and connect
-- (src/QoreNatsConnection.cpp).
use module_nats.Common.{String, Bool, true, false, Option, none, some, List, [], ◌∷◌, if◌then◌else◌}
use module_nats.Common.Int.{pos_part}
use module_nats.Runtime.{Status, text, Exception, Result, raise, done, or_failed}
use module_nats.Value.{Value, Fields, get_key_value}
use module_nats.Dialer.{Dialer}
use module_nats.Dialer as Dialers
use module_nats.Connection.Setup.{
  Callback, on_disconnect, on_reconnect, on_closed, on_error, on_lame_duck, on_discovered_servers,
  Client, Action, url, callback, proxy_handler, options_created, connected, log, skip, run, apply,
  check_url, on_string,
}
use module_nats.Connection.Options.{connection_error, configure_options}

-- extract_callback
unfoldable pub extract_callback : Fields → String → Bool
extract_callback h key = elim (get_key_value h key) [ Value.call_reference n ↦ true | _ ↦ false ]

-- a reference to the closure, for the context
unfoldable pub hold : Callback → Action
hold k s = elim s.context [
  | none ↦ (done, s)
  | some ks ↦ (done, record s { context = some (k ∷ ks) })
]

unfoldable pub register : Client → Fields → String → Callback → String → Action
unfolding extract_callback run hold apply skip
register c h key k fmt =
    if extract_callback h key
    then run (hold k ∷ apply c connection_error fmt [] (callback k) ∷ [])
    else skip

-- The closed callback is always registered.
unfoldable pub register_closed : Client → Fields → Action
unfolding extract_callback run hold apply skip
register_closed c h = run (
    (if extract_callback h "on_closed" then hold on_closed else skip)
    ∷ apply c connection_error "failed to set closed callback" [] (callback on_closed)
    ∷ [])

-- `cb_ctx = new NatsCallbackContext();`
unfoldable pub new_context : Action
new_context s = (done, record s { context = some [] })

-- the registrations, when there is a callback
unfoldable pub registrations : Client → Fields → List Action
unfolding new_context register register_closed
registrations c h =
    new_context
    ∷ register c h "on_disconnect" on_disconnect "failed to set disconnect callback"
    ∷ register c h "on_reconnect" on_reconnect "failed to set reconnect callback"
    ∷ register_closed c h
    ∷ register c h "on_error" on_error "failed to set error handler"
    ∷ register c h "on_lame_duck" on_lame_duck "failed to set lame duck callback"
    ∷ register c h "on_discovered_servers" on_discovered_servers
        "failed to set discovered servers callback"
    ∷ []

unfoldable pub any_callback : Fields → List String → Bool
unfolding extract_callback
any_callback h [] = false
any_callback h (key ∷ keys) =
    let rest = any_callback h keys in if extract_callback h key then true else rest

abbrev pub callback_keys : List String
callback_keys =
    "on_disconnect" ∷ "on_reconnect" ∷ "on_closed" ∷ "on_error" ∷ "on_lame_duck"
    ∷ "on_discovered_servers" ∷ []

unfoldable pub setup_callbacks : Client → Fields → Action
unfolding any_callback run registrations skip
setup_callbacks c h = if any_callback h callback_keys then run (registrations c h) else skip

-- `dialer = std::move(d);`, a dialer with the fields of the connection
unfoldable pub keep_dialer : Client → Action
keep_dialer c s = (
  done,
  record s {
    dialer =
        some (
          Dialers.create c.default_timeout s.connect_timeout_ms (pos_part s.ip_order) s.keep_order);
  },
)

-- Only under a sandbox has a connection a dialer.
unfoldable pub setup_dialer : Client → Action
unfolding run apply keep_dialer skip
setup_dialer c =
    if c.policy.sandboxed
    then run (
        apply c connection_error "failed to set the connection handler" [] proxy_handler
        ∷ keep_dialer c
        ∷ [])
    else skip

-- natsOptions_Create
unfoldable pub create_options : Client → Action
unfolding or_failed
create_options c s = (
  or_failed c.create_options connection_error "failed to create NATS options" [] tt,
  log (options_created c.create_options) s,
)

-- the exception that is reported when the connection fails
unfoldable pub connect_result : Option String → Status → Option Exception → Result (Unit {0})
unfolding or_failed
connect_result u st (some e) = raise e
connect_result (some u) st none =
    or_failed st connection_error "failed to connect to '%s'" (text u ∷ []) tt
connect_result none st none = or_failed st connection_error "failed to connect" [] tt

-- connect; what it does with the references to the context of the callbacks is in
-- Connection.Callbacks. Only a dialer keeps an exception.
unfoldable pub connect : Client → Option String → Action
unfolding connect_result
connect c u s =
    let (st, e) = c.connect s.trace in
    (connect_result u st (elim s.dialer [ none ↦ none | some _ ↦ e ]), log (connected st) s)

-- QoreNatsConnection(url)
unfoldable pub construct_url : Client → String → Action
unfolding run check_url create_options apply setup_dialer connect
construct_url c u = run (
    check_url c u
    ∷ create_options c
    ∷ apply c connection_error "failed to set NATS URL '%s'" (text u ∷ []) (url u)
    ∷ setup_dialer c
    ∷ connect c (some u)
    ∷ [])

-- QoreNatsConnection(options, pgm)
unfoldable pub construct : Client → Fields → Action
unfolding run create_options configure_options setup_callbacks on_string check_url setup_dialer
    connect
construct c h = run (
    create_options c
    ∷ configure_options c h
    ∷ setup_callbacks c h
    ∷ on_string (get_key_value h "url") (check_url c)
    ∷ setup_dialer c
    ∷ connect c none
    ∷ [])
