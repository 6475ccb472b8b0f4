-- ===== src/Connection/Info.antt =====
-- The getters of QoreNatsConnection, getStats, getServers, getDiscoveredServers and getConnectionInfo
-- (src/QoreNatsConnection.cpp), with what the C client allocates for them.
pub mod Overview
pub mod Released
pub mod Sessions
mod Tests
use module_nats.Common.{
  ℕ, suc, ℤ, pos, String, Bool, true, false, Option, none, some, List, [], ◌∷◌, if◌then◌else◌,
}
use module_nats.Common.Int.{quot, int64}
use module_nats.Value.{Value, strings}
use module_nats.Runtime.{
  Status, set_failed, Result, ok, raise, raised, cancelled, failed, or_failed, ◌>>=◌, ◌>>◌,
}
use module_nats.Message.{Refuses, set_key}
use module_nats.Hash.{
  Hash, empty, Write, write, write_all, new_hash, int_write, bool_write, string_write,
}

-- The two lists of servers.
pub data Which : Type 0 where
  known discovered : Which

-- What the C client allocates and the connection frees; an entry of a list has its index.
pub data Block : Type 0 where
  client_ip local_ip statistics : Block
  array : Which → Block
  entry : Which → ℕ → Block

pub data Event : Type 0 where
  checked : Bool → Event
  allocated : Block → Event
  freed : Block → Event

-- natsStatistics_GetCounts
pub record Counts : Type 0 where
  pub in_msgs : ℕ
  pub in_bytes : ℕ
  pub out_msgs : ℕ
  pub out_bytes : ℕ
  pub reconnects : ℕ

-- The answers of the C client and of the Qore runtime to one method call, which asks each at most once.
pub record Client : Type 0 where
  pub check_cancel : List Event → Bool
  pub status : ℤ
  pub closed_status : ℤ  -- NATS_CONN_STATUS_CLOSED
  pub connected_url : Status × String
  pub server_id : Status × String
  pub client_id : Status × ℕ
  pub client_ip : Status × Option String
  pub rtt : Status × ℤ
  pub max_payload : ℤ
  pub header_support : Status
  pub local_ip_and_port : Status × Option String × ℤ
  pub is_reconnecting : Bool
  pub is_draining : Bool
  pub buffered : ℤ
  pub create_statistics : Status
  pub get_stats : Status
  pub get_counts : Status × Counts
  pub servers : Which → Status × Option (List String)
  pub set_refuses : Refuses
  pub push_refuses : Which → ℕ → Bool  -- the push of an entry, by its index

-- `is_set` says whether the connection pointer is set.
pub record State : Type 0 where
  pub is_set : Bool
  pub trace : List Event

abbrev pub log : Event → State → State
log e s = record s { trace = e ∷ s.trace }

abbrev pub err : String
err = "NATS-CONNECTION-ERROR"

-- `if (!conn)`, and the rest of the method
unfoldable pub connected {ℓ} : {A : Type ℓ} → (State → Result A × State) → State → Result A × State
connected rest s = if s.is_set then rest s else (raise (raised err "not connected" []), s)

-- `if (qore_check_cancel(xsink))`
unfoldable pub cancellable {ℓ} :
    {A : Type ℓ} → Client → (State → Result A × State) → State → Result A × State
cancellable c rest s =
    let stop = c.check_cancel s.trace in
    let t = log (checked stop) s in if stop then (raise cancelled, t) else rest t

-- What follows a part that may fail.
unfoldable pub bind {ℓ κ} :
    {A : Type ℓ} {B : Type κ} → Result A × State → (A → State → Result B × State) → Result B × State
bind (ok a, s) k = k a s
bind (raise e, s) k = (raise e, s)

-- The getters that allocate nothing.
unfoldable pub status : Client → State → ℤ
status c s = if s.is_set then c.status else c.closed_status

unfoldable pub get_connected_url : Client → State → Result String × State
unfolding connected or_failed
get_connected_url c =
    connected
      λ s. (or_failed c.connected_url.0 err "failed to get connected URL" [] c.connected_url.1, s)

abbrev when_ok {ℓ} : {A : Type ℓ} → Status → A → Option A
when_ok Status.nats_ok a = some a
when_ok _ a = none

unfoldable pub get_server_id : Client → State → Result (Option String) × State
unfolding connected
get_server_id c = connected λ s. (ok (when_ok c.server_id.0 c.server_id.1), s)

unfoldable pub get_client_id : Client → State → Result ℤ × State
unfolding connected or_failed int64
get_client_id c =
    connected
      λ s. (or_failed c.client_id.0 err "failed to get client ID" [] (int64 c.client_id.1), s)

unfoldable pub get_rtt : Client → State → Result (Option ℤ) × State
unfolding connected
get_rtt c = connected λ s. (ok (when_ok c.rtt.0 (quot c.rtt.1 1000000)), s)

unfoldable pub get_max_payload : Client → State → Result ℤ × State
unfolding connected
get_max_payload c = connected λ s. (ok c.max_payload, s)

abbrev pub is_ok : Status → Bool
is_ok Status.nats_ok = true
is_ok _ = false

unfoldable pub has_header_support : Client → State → Result Bool × State
unfolding connected
has_header_support c = connected λ s. (ok (is_ok c.header_support), s)

unfoldable pub is_reconnecting : Client → State → Bool
is_reconnecting c s = if s.is_set then c.is_reconnecting else false

unfoldable pub is_draining : Client → State → Bool
is_draining c s = if s.is_set then c.is_draining else false

unfoldable pub buffered : Client → State → ℤ
buffered c s = if s.is_set then c.buffered else pos 0

-- An address that the C client allocated, if it did, is used and freed.
unfoldable pub ip_case {ℓ} :
    {A : Type ℓ} → A → (String → A) → Status × Option String → State → A × State
ip_case d f (Status.nats_ok, some ip) s =
    (f ip, log (freed client_ip) (log (allocated client_ip) s))
ip_case d f _ s = (d, s)

unfoldable pub get_client_ip : Client → State → Result (Option String) × State
unfolding connected ip_case
get_client_ip c = connected (ip_case (ok none) (λ ip. ok (some ip)) c.client_ip)

-- the keys of a local address, under the names of the method
unfoldable pub local_keys :
    Refuses → String → String → Hash → Option String → ℤ → State → Result Hash × State
unfolding write_all
local_keys refuses ip_key port_key h none port s =
    (write_all refuses (int_write port_key port ∷ []) h, s)
local_keys refuses ip_key port_key h (some ip) port s = (
  write_all refuses (string_write ip_key (some ip) ∷ int_write port_key port ∷ []) h,
  log (freed local_ip) (log (allocated local_ip) s),
)

unfoldable pub local_case : Client → Status × Option String × ℤ → State → Result Hash × State
unfolding local_keys
local_case c (Status.nats_ok, ip, port) s = local_keys c.set_refuses "ip" "port" empty ip port s
local_case c (st, ip, port) s = (raise (failed err st "failed to get local IP and port" []), s)

unfoldable pub get_local_ip_and_port : Client → State → Result Hash × State
unfolding connected local_case
get_local_ip_and_port c = connected (local_case c c.local_ip_and_port)

unfoldable pub count_writes : Counts → List Write
unfolding int64
count_writes n =
    int_write "in_msgs" (int64 n.in_msgs)
    ∷ int_write "in_bytes" (int64 n.in_bytes)
    ∷ int_write "out_msgs" (int64 n.out_msgs)
    ∷ int_write "out_bytes" (int64 n.out_bytes)
    ∷ int_write "reconnects" (int64 n.reconnects)
    ∷ []

-- the statistics, which are destroyed behind natsStatistics_GetCounts or when the call in front of it
-- fails
unfoldable pub stats_case : Client → Status → Status → State → Result Hash × State
unfolding new_hash count_writes or_failed
stats_case c Status.nats_ok Status.nats_ok s = (
  or_failed c.get_counts.0 err "failed to get statistics counts" [] tt
      >> new_hash c.set_refuses "NatsConnectionStats" (count_writes c.get_counts.1),
  log (freed statistics) (log (allocated statistics) s),
)
stats_case c Status.nats_ok st s = (
  raise (failed err st "failed to get statistics" []),
  log (freed statistics) (log (allocated statistics) s),
)
stats_case c st st' s = (raise (failed err st "failed to create statistics" []), s)

unfoldable pub get_stats : Client → State → Result Hash × State
unfolding connected cancellable stats_case
get_stats c = connected (cancellable c (stats_case c c.create_statistics c.get_stats))

-- the entries from the index `i` on, and the array
unfoldable pub allocate_entries : Which → ℕ → List String → State → State
allocate_entries w i [] s = s
allocate_entries w i (x ∷ xs) s = allocate_entries w (suc i) xs (log (allocated (entry w i)) s)

unfoldable pub free_entries : Which → ℕ → List String → State → State
free_entries w i [] s = s
free_entries w i (x ∷ xs) s = free_entries w (suc i) xs (log (freed (entry w i)) s)

-- nats_server_list_to_qore: each entry is freed behind its push; an exception frees the others.
unfoldable pub server_list :
    (ℕ → Bool) → Which → ℕ → List String → State → Result (List String) × State
unfolding free_entries bind
server_list refuses w i [] s = (ok [], log (freed (array w)) s)
server_list refuses w i (x ∷ xs) s =
    let t = log (freed (entry w i)) s in
    let rest = server_list refuses w (suc i) xs t in
    if refuses i
    then (raise (set_failed "push"), log (freed (array w)) (free_entries w (suc i) xs t))
    else bind rest λ ys u. (ok (x ∷ ys), u)

-- The list that was answered: an empty one is freed only.
unfoldable pub list_found : Client → Which → List String → State → Result (List String) × State
unfolding server_list allocate_entries
list_found c w [] s = (ok [], log (freed (array w)) (log (allocated (array w)) s))
list_found c w (x ∷ xs) s =
    server_list (c.push_refuses w) w 0 (x ∷ xs)
      (allocate_entries w 0 (x ∷ xs) (log (allocated (array w)) s))

unfoldable pub servers_case :
    Client → Which → String → Status × Option (List String) → State → Result (List String) × State
unfolding list_found
servers_case c w fmt (Status.nats_ok, none) s = (ok [], s)
servers_case c w fmt (Status.nats_ok, some xs) s = list_found c w xs s
servers_case c w fmt (st, xs) s = (raise (failed err st fmt []), s)

unfoldable pub get_servers : Client → State → Result (List String) × State
unfolding connected cancellable servers_case
get_servers c =
    connected (cancellable c (servers_case c known "failed to get servers" (c.servers known)))

unfoldable pub get_discovered_servers : Client → State → Result (List String) × State
unfolding connected cancellable servers_case
get_discovered_servers c = connected (
    cancellable c
      (servers_case c discovered "failed to get discovered servers" (c.servers discovered)))
