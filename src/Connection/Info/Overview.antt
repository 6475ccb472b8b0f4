-- ===== src/Connection/Info/Overview.antt =====
-- QoreNatsConnection::getConnectionInfo (src/QoreNatsConnection.cpp), as a list of stages that each
-- add to the hash.
use module_nats.Common.{ℤ, String, Option, some, List, [], ◌∷◌}
use module_nats.Common.Int.{int64}
use module_nats.Runtime.{Status, Result, ok}
use module_nats.Message.{Refuses, set_key}
use module_nats.Hash.{
  Hash, empty, Write, write_all, string_write, int_write, millis_write, bool_write, strings_write,
}
use module_nats.Connection.Info.{
  Which, known, discovered, Client, State, connected, cancellable, bind, ip_case, local_keys,
  get_stats, list_found, is_ok,
}

-- A part of the method, from the hash that the parts before it made.
abbrev pub Stage : Type 0
Stage = Hash → State → Result Hash × State

unfoldable pub run : List Stage → Stage
unfolding bind
run [] h s = (ok h, s)
run (a ∷ rest) h s = bind (a h s) (run rest)

-- `if (natsConnection_...(conn, ...) == NATS_OK) { h->setKeyValue(...); }`
unfoldable pub answered : Refuses → Status → Write → Stage
unfolding write_all
answered refuses Status.nats_ok w h s = (write_all refuses (w ∷ []) h, s)
answered refuses st w h s = (ok h, s)

-- the keys that are set in any case
unfoldable pub always : Refuses → List Write → Stage
unfolding write_all
always refuses ws h s = (write_all refuses ws h, s)

unfoldable pub client_ip_stage : Client → Stage
unfolding ip_case write_all
client_ip_stage c h =
    ip_case (ok h) (λ ip. write_all c.set_refuses (string_write "client_ip" (some ip) ∷ []) h)
      c.client_ip

unfoldable pub local_stage_case : Refuses → Status × Option String × ℤ → Stage
unfolding local_keys
local_stage_case refuses (Status.nats_ok, ip, port) h s =
    local_keys refuses "local_ip" "local_port" h ip port s
local_stage_case refuses (st, ip, port) h s = (ok h, s)

-- A list of servers, unless it is empty: it becomes a Qore list, and its arrays are freed.
unfoldable pub servers_stage : Client → Which → String → Status × Option (List String) → Stage
unfolding list_found bind write_all
servers_stage c w key (Status.nats_ok, some xs) h s =
    bind (list_found c w xs s)
      λ ys t. (write_all c.set_refuses (strings_write key (some ys) ∷ []) h, t)
servers_stage c w key _ h s = (ok h, s)

-- The statistics are a hash of their own under "stats".
pub record Overview : Type 0 where
  pub fields : Hash
  pub stats : Hash

unfoldable pub server_writes : Client → List Write
server_writes c =
    int_write "max_payload" c.max_payload
    ∷ bool_write "has_header_support" (is_ok c.header_support)
    ∷ []

unfoldable pub activity_writes : Client → List Write
activity_writes c =
    bool_write "is_reconnecting" c.is_reconnecting
    ∷ bool_write "is_draining" c.is_draining
    ∷ int_write "buffered" c.buffered
    ∷ []

unfoldable pub stages : Client → List Stage
unfolding server_writes activity_writes answered always client_ip_stage local_stage_case
    servers_stage int64
stages c =
    answered c.set_refuses c.connected_url.0 (string_write "connected_url" (some c.connected_url.1))
    ∷ answered c.set_refuses c.server_id.0 (string_write "server_id" (some c.server_id.1))
    ∷ answered c.set_refuses c.client_id.0 (int_write "client_id" (int64 c.client_id.1))
    ∷ client_ip_stage c
    ∷ answered c.set_refuses c.rtt.0 (millis_write "rtt_ms" c.rtt.1)
    ∷ always c.set_refuses (server_writes c)
    ∷ local_stage_case c.set_refuses c.local_ip_and_port
    ∷ always c.set_refuses (activity_writes c)
    ∷ servers_stage c known "servers" (c.servers known)
    ∷ servers_stage c discovered "discovered_servers" (c.servers discovered)
    ∷ []

-- the statistics at the end of the method
unfoldable pub with_stats : Client → Hash → State → Result Overview × State
unfolding bind get_stats set_key
with_stats c g s =
    bind (get_stats c s)
      λ n t. (set_key c.set_refuses "stats" (record { fields = g; stats = n }), t)

unfoldable pub with_stages : Client → Hash → State → Result Overview × State
unfolding bind run stages with_stats
with_stages c h s = bind (run (stages c) h s) (with_stats c)

-- the hash
unfoldable pub overview : Client → State → Result Overview × State
unfolding bind with_stages set_key
overview c s = bind (set_key c.set_refuses "NatsConnectionInfo" empty, s) (with_stages c)

unfoldable pub get_connection_info : Client → State → Result Overview × State
unfolding connected cancellable overview
get_connection_info c = connected (cancellable c (overview c))
