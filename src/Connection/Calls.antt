-- ===== src/Connection/Calls.antt =====
-- publish, publishMsg, subscribe, queueSubscribe, drain, close, flush, isConnected and reconnect.
use module_nats.Common.{
  ℕ, ℤ, pos, String, Bool, true, false, not, ◌&&◌, Option, none, some, List, [], ◌∷◌, ◌==◌,
  if◌then◌else◌,
}
use module_nats.Value.{Value, Fields, end, field}
use module_nats.Runtime.{
  Status, Arg, text, number, Result, ok, raise, cancelled, failed, or_failed, done,
}
use module_nats.Poll.{Verdict, finish, timed_out, poll}
use module_nats.Subscription.{Subscription}
use module_nats.Subscription
use module_nats.Connection.Client.{
  Client, Connection, waited, created_msg, destroyed_msg, called, log, check, not_connected,
}

-- The two guards at the head of a method, and the rest of the method.
unfoldable pub guarded {ℓ} :
    {A : Type ℓ}
    → String
    → Client
    → (Connection → Result A × Connection)
    → Connection
    → Result A × Connection
unfolding check
guarded err c rest s =
    if s.is_set
    then (let (stop, t) = check c s in elim stop [ true ↦ (raise cancelled, t) | false ↦ rest t ])
    else (not_connected err, s)

-- A call that answers with a status alone; `a` is what is returned then.
unfoldable pub call {ℓ} :
    {A : Type ℓ}
    → String
    → Client
    → String
    → String
    → List Arg
    → List Arg
    → A
    → Connection
    → Result A × Connection
unfolding or_failed
call err c name fmt shown args a s =
    let st = c.call_status s.trace name args in
    (or_failed st err fmt shown a, log (called name args st) s)

abbrev pub publish_error : String
publish_error = "NATS-PUBLISH-ERROR"

abbrev pub connection_error : String
connection_error = "NATS-CONNECTION-ERROR"

-- The bytes of a message, as arguments.
abbrev pub bytes : List ℕ → List Arg
bytes [] = []
bytes (b ∷ bs) = number (pos b) ∷ bytes bs

unfoldable pub publish : Client → String → List ℕ → Connection → Result (Unit {0}) × Connection
unfolding guarded call
publish c subject payload = guarded publish_error c (
    call publish_error c "natsConnection_Publish" "failed to publish to subject '%s'"
      (text subject ∷ []) (text subject ∷ bytes payload) tt)

-- A header that was set with this status: the loop goes on, or the method ends.
unfoldable pub header_case :
    (Connection → Result (Unit {0}) × Connection)
    → String
    → Status
    → Connection
    → Result (Unit {0}) × Connection
header_case rest k Status.nats_ok s = rest s
header_case rest k st s =
    (raise (failed publish_error st "failed to set header '%s'" (text k ∷ [])), s)

-- The loop over the headers: those with a string are set.
unfoldable pub set_headers : Client → Fields → Connection → Result (Unit {0}) × Connection
unfolding header_case
set_headers c end s = (done, s)
set_headers c (field k (Value.str v) h) s =
    let st = c.call_status s.trace "natsMsgHeader_Set" (text k ∷ text v ∷ []) in
    header_case (set_headers c h) k st
      (log (called "natsMsgHeader_Set" (text k ∷ text v ∷ []) st) s)
set_headers c (field k v h) s = set_headers c h s

-- the publication behind the headers; the holder destroys the message when the method returns
unfoldable pub publish_headed :
    Client → String → Result (Unit {0}) × Connection → Result (Unit {0}) × Connection
unfolding call
publish_headed c subject (raise e, s) = (raise e, log destroyed_msg s)
publish_headed c subject (ok u, s) =
    let (r, t) =
      call publish_error c "natsConnection_PublishMsg" "failed to publish message to subject '%s'"
        (text subject ∷ []) [] tt s in
    (r, log destroyed_msg t)

unfoldable pub headers_or_none : Option Fields → Fields
headers_or_none none = end
headers_or_none (some h) = h

-- Behind natsMsg_Create.
unfoldable pub publish_created :
    Client → String → Option Fields → Status → Connection → Result (Unit {0}) × Connection
unfolding publish_headed set_headers headers_or_none
publish_created c subject headers Status.nats_ok s =
    publish_headed c subject (set_headers c (headers_or_none headers) (log created_msg s))
publish_created c subject headers st s =
    (raise (failed publish_error st "failed to create message" []), s)

unfoldable pub publish_rest :
    Client → String → List ℕ → Option Fields → Connection → Result (Unit {0}) × Connection
unfolding publish_created
publish_rest c subject payload headers s =
    let st = c.call_status s.trace "natsMsg_Create" (text subject ∷ bytes payload) in
    publish_created c subject headers st
      (log (called "natsMsg_Create" (text subject ∷ bytes payload) st) s)

unfoldable pub publish_msg :
    Client → String → List ℕ → Option Fields → Connection → Result (Unit {0}) × Connection
unfolding guarded publish_rest
publish_msg c subject payload headers =
    guarded publish_error c (publish_rest c subject payload headers)

-- A guard on the connection alone.
unfoldable pub connected {ℓ} :
    {A : Type ℓ}
    → String
    → (Connection → Result A × Connection)
    → Connection
    → Result A × Connection
connected err rest s = if s.is_set then rest s else (not_connected err, s)

-- A new subscription, in the process `pid`.
unfoldable pub subscribe : Client → ℕ → String → Connection → Result Subscription × Connection
unfolding connected call
subscribe c pid subject = connected "NATS-SUBSCRIBE-ERROR" (
    call "NATS-SUBSCRIBE-ERROR" c "natsConnection_SubscribeSync"
      "failed to subscribe to subject '%s'" (text subject ∷ []) (text subject ∷ [])
      (module_nats.Subscription.create pid true []))

unfoldable pub queue_subscribe :
    Client → ℕ → String → String → Connection → Result Subscription × Connection
unfolding connected call
queue_subscribe c pid subject queue = connected "NATS-SUBSCRIBE-ERROR" (
    call "NATS-SUBSCRIBE-ERROR" c "natsConnection_QueueSubscribeSync"
      "failed to queue subscribe to subject '%s' queue '%s'" (text subject ∷ text queue ∷ [])
      (text subject ∷ text queue ∷ []) (module_nats.Subscription.create pid true []))

unfoldable pub drain : Client → Connection → Result (Unit {0}) × Connection
unfolding guarded call
drain c =
    guarded connection_error c
      (call connection_error c "natsConnection_Drain" "failed to drain connection" [] [] tt)

unfoldable pub reconnect : Client → Connection → Result (Unit {0}) × Connection
unfolding guarded call
reconnect c =
    guarded connection_error c
      (call connection_error c "natsConnection_Reconnect" "failed to reconnect" [] [] tt)

-- QoreNatsConnection::close, in the process `pid`; a forked child abandons the connection.
unfoldable pub close : Client → ℕ → Connection → Connection
close c pid s =
    if pid == s.creator
    then (if s.is_set then log (called "natsConnection_Close" [] Status.nats_ok) s else s)
    else record s { is_set = false }

unfoldable pub is_connected : Client → Connection → Bool
is_connected c s = s.is_set && not (c.is_closed s.trace)

abbrev pub flush_failed : Status → Result (Unit {0})
flush_failed st = raise (failed connection_error st "failed to flush connection" [])

unfoldable pub flush_case : Status → Connection → Verdict (Unit {0}) × Connection
flush_case Status.nats_ok s = (finish done, s)
flush_case Status.nats_timeout s = (timed_out, s)
flush_case st s = (finish (flush_failed st), s)

unfoldable pub flush_wait : Client → ℤ → Connection → Verdict (Unit {0}) × Connection
unfolding flush_case
flush_wait c w s = let st = c.flush_timeout s.trace w in flush_case st (log (waited w st) s)

-- QoreNatsConnection::flush
unfoldable pub flush : Client → ℕ → ℤ → Connection → Option (Result (Unit {0}) × Connection)
unfolding check flush_wait poll
flush c fuel timeout_ms s =
    if s.is_set
    then (let (stop, t) = check c s in
        elim stop [
          | true ↦ some (raise cancelled, t)
          | false ↦
              poll (check c) (flush_wait c) c.poll_interval false (flush_failed Status.nats_timeout)
                fuel timeout_ms t
        ])
    else some (not_connected connection_error, s)
