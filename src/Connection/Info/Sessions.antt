-- ===== src/Connection/Info/Sessions.antt =====
-- The getters of a connection as the steps of a session, and what a session leaves
-- (src/QoreNatsConnection.cpp).
use module_nats.Common.{◌≡◌, refl, Bool, [], arith, All, none, some, String}
use module_nats.Runtime.{ok}
use module_nats.Message.{set_key}
use module_nats.Hash.{Hash, empty}
use module_nats.Connection.Info.{
  Which, known, discovered, Block, Client, State, connected, cancellable, stats_case, servers_case,
  get_connected_url, get_server_id, get_client_id, get_rtt, get_max_payload, has_header_support,
  get_client_ip, get_local_ip_and_port, get_stats, get_servers, get_discovered_servers, ip_case,
  local_case,
}
use module_nats.Connection.Info.Overview.{
  server_writes, activity_writes, run, stages, with_stats, with_stages, overview,
  get_connection_info, client_ip_stage,
}
use module_nats.Connection.Info.Released.{
  taken, given, Owes, Keeps, ip_case-Owes, local_case-Owes, stats_case-Owes, connected-Owes,
  cancellable-Owes, servers_case-Owes, run-Owes, answered-Owes, always-Owes, servers_stage-Owes,
  local_stage_case-Owes, bind-Owes,
}

-- One call of a getter, with the answers that it gets.
pub data Step (s : State) : State → Type 0 where
  reads_connected_url : (c : Client) → Step s (get_connected_url c s).1
  reads_server_id : (c : Client) → Step s (get_server_id c s).1
  reads_client_id : (c : Client) → Step s (get_client_id c s).1
  reads_rtt : (c : Client) → Step s (get_rtt c s).1
  reads_max_payload : (c : Client) → Step s (get_max_payload c s).1
  reads_header_support : (c : Client) → Step s (has_header_support c s).1
  reads_client_ip : (c : Client) → Step s (get_client_ip c s).1
  reads_local_ip_and_port : (c : Client) → Step s (get_local_ip_and_port c s).1
  reads_stats : (c : Client) → Step s (get_stats c s).1
  reads_servers : (c : Client) → Step s (get_servers c s).1
  reads_discovered_servers : (c : Client) → Step s (get_discovered_servers c s).1
  reads_connection_info : (c : Client) → Step s (get_connection_info c s).1

-- The states that calls reach from one in which nothing was asked.
pub data Session (is_set : Bool) : State → Type 0 where
  opened : Session is_set (record { is_set = is_set; trace = [] })
  later : {s t : State} → Session is_set s → Step s t → Session is_set t

module _ (b : Block) where
  get_stats-Owes : (c : Client) (s : State) → Owes b 0 s → Owes b 0 (get_stats c s).1
  unfolding get_stats
  get_stats-Owes c s =
      let rest = stats_case c c.create_statistics c.get_stats in
      connected-Owes b (cancellable c rest) s
        λ t. cancellable-Owes b c rest t λ u. stats_case-Owes b c c.create_statistics c.get_stats u

  client_ip_stage-Owes : (c : Client) → Keeps b (client_ip_stage c)
  unfolding client_ip_stage
  client_ip_stage-Owes c g s = ip_case-Owes b _ _ c.client_ip s

  stages-Keeps : (c : Client) → All (Keeps b) (stages c)
  unfolding stages
  stages-Keeps c = (
    answered-Owes b c.set_refuses _ _,
    (
      answered-Owes b c.set_refuses _ _,
      (
        answered-Owes b c.set_refuses _ _,
        (
          client_ip_stage-Owes c,
          (
            answered-Owes b c.set_refuses _ _,
            (
              always-Owes b c.set_refuses (server_writes c),
              (
                local_stage_case-Owes b c.set_refuses _,
                (
                  always-Owes b c.set_refuses (activity_writes c),
                  (servers_stage-Owes b c known _ _, (servers_stage-Owes b c discovered _ _, tt)),
                ),
              ),
            ),
          ),
        ),
      ),
    ),
  )

  with_stats-Owes : (c : Client) (g : Hash) (s : State) → Owes b 0 s → Owes b 0 (with_stats c g s).1
  unfolding with_stats
  with_stats-Owes c g s h =
      bind-Owes b (get_stats c s)
        (λ n t. (set_key c.set_refuses "stats" (record { fields = g; stats = n }), t))
        (get_stats-Owes c s h) λ n t k. k

  with_stages-Owes :
      (c : Client) (g : Hash) (s : State) → Owes b 0 s → Owes b 0 (with_stages c g s).1
  unfolding with_stages
  with_stages-Owes c g s h =
      bind-Owes b (run (stages c) g s) (with_stats c) (run-Owes b (stages c) (stages-Keeps c) g s h)
        (with_stats-Owes c)

  overview-Owes : (c : Client) (s : State) → Owes b 0 s → Owes b 0 (overview c s).1
  unfolding overview
  overview-Owes c s h =
      bind-Owes b (set_key c.set_refuses "NatsConnectionInfo" empty, s) (with_stages c) h
        (with_stages-Owes c)

  list-Owes :
      (c : Client) (w : Which) (fmt : String) (s : State)
      → Owes b 0 s
      → Owes b 0 (connected (cancellable c (servers_case c w fmt (c.servers w))) s).1
  list-Owes c w fmt s =
      let rest = servers_case c w fmt (c.servers w) in
      connected-Owes b (cancellable c rest) s
        λ t. cancellable-Owes b c rest t (servers_case-Owes b c w fmt (c.servers w))

  Step-Owes : {s t : State} → Step s t → Owes b 0 s → Owes b 0 t
  unfolding connected get_connected_url get_server_id get_client_id get_rtt get_max_payload
      has_header_support get_client_ip get_local_ip_and_port get_servers get_discovered_servers
      get_connection_info
  Step-Owes {s} (reads_connected_url c) h = ground (arith, h)
  Step-Owes {s} (reads_server_id c) h = ground (arith, h)
  Step-Owes {s} (reads_client_id c) h = ground (arith, h)
  Step-Owes {s} (reads_rtt c) h = ground (arith, h)
  Step-Owes {s} (reads_max_payload c) h = ground (arith, h)
  Step-Owes {s} (reads_header_support c) h = ground (arith, h)
  Step-Owes {s} (reads_client_ip c) h =
      connected-Owes b (ip_case (ok none) (λ ip. ok (some ip)) c.client_ip) s
        (ip_case-Owes b (ok none) (λ ip. ok (some ip)) c.client_ip) h
  Step-Owes {s} (reads_local_ip_and_port c) h =
      connected-Owes b (local_case c c.local_ip_and_port) s
        (local_case-Owes b c c.local_ip_and_port) h
  Step-Owes {s} (reads_stats c) h = get_stats-Owes c s h
  Step-Owes {s} (reads_servers c) h = list-Owes c known "failed to get servers" s h
  Step-Owes {s} (reads_discovered_servers c) h =
      list-Owes c discovered "failed to get discovered servers" s h
  Step-Owes {s} (reads_connection_info c) h =
      connected-Owes b (cancellable c (overview c)) s
        (λ t. cancellable-Owes b c (overview c) t (overview-Owes c)) h

  Session-Owes : {is_set : Bool} {s : State} → Session is_set s → Owes b 0 s
  unfolding taken given
  Session-Owes opened = refl
  Session-Owes (later r q) = Step-Owes q (Session-Owes r)

  -- After any calls of the getters, with any answers and on every branch of each: what the C client
  -- allocated for them (addresses, statistics, the lists of servers and each of their entries) was
  -- freed exactly as often as it was allocated.
  pub Session-freed :
      {is_set : Bool} {s : State} → Session is_set s → taken b s.trace ≡ given b s.trace
  Session-freed r = let h = Session-Owes r in omega (arith, h)
