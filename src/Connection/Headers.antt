-- ===== src/Connection/Headers.antt =====
-- What publishMsg asks of the C client.
use module_nats.Common.{ℕ, String, List, [], ◌∷◌, ◌≡◌, refl, ap, sym, ◌∙◌, false, Option, arith}
use module_nats.Value.{Value, Fields, end, field}
use module_nats.Runtime.{Status, Arg, text, Result, ok, raise, done, or_failed}
use module_nats.Connection.Client.{
  Event, checked, created_msg, destroyed_msg, called, Client, Connection, log, check,
}
use module_nats.Connection.Calls.{
  guarded, call, bytes, header_case, set_headers, headers_or_none, publish_headed, publish_created,
  publish_rest, publish_msg,
}

-- The calls that set the headers, in order, on top of a trace.
pub set_events : Fields → List Event → List Event
set_events end tr = tr
set_events (field k (Value.str v) h) tr =
    set_events h (called "natsMsgHeader_Set" (text k ∷ text v ∷ []) Status.nats_ok ∷ tr)
set_events (field k v h) tr = set_events h tr

header_case-done :
    (rest : Connection → Result (Unit {0}) × Connection) (k : String) (st : Status)
    (s t : Connection)
    → header_case rest k st s ≡ (done, t)
    → (st ≡ Status.nats_ok) × (rest s ≡ (done, t))
unfolding header_case
header_case-done rest k Status.nats_ok s t e = (refl, e)
header_case-done rest k _ s t e = cc

set_headers-done :
    (c : Client) (h : Fields) (s t : Connection)
    → set_headers c h s ≡ (done, t)
    → t.trace ≡ set_events h s.trace
unfolding set_headers set_events
set_headers-done c end s t e = cc
set_headers-done c (field k (Value.str v) h) s t e =
    let st = c.call_status s.trace "natsMsgHeader_Set" (text k ∷ text v ∷ []) in
    let u = log (called "natsMsgHeader_Set" (text k ∷ text v ∷ []) st) s in
    let (ok_st, on) = header_case-done (set_headers c h) k st u t e in
    set_headers-done c h u t on
    ∙ ap (λ x. set_events h (called "natsMsgHeader_Set" (text k ∷ text v ∷ []) x ∷ s.trace)) ok_st
set_headers-done c (field k Value.nothing h) s t e = set_headers-done c h s t e
set_headers-done c (field k Value.null h) s t e = set_headers-done c h s t e
set_headers-done c (field k (Value.int n) h) s t e = set_headers-done c h s t e
set_headers-done c (field k (Value.bool n) h) s t e = set_headers-done c h s t e
set_headers-done c (field k (Value.binary n) h) s t e = set_headers-done c h s t e
set_headers-done c (field k (Value.list n) h) s t e = set_headers-done c h s t e
set_headers-done c (field k (Value.hash n) h) s t e = set_headers-done c h s t e
set_headers-done c (field k (Value.call_reference n) h) s t e = set_headers-done c h s t e

or_failed-done :
    (st : Status) (err fmt : String) (shown : List Arg)
    → or_failed st err fmt shown tt ≡ done
    → st ≡ Status.nats_ok
unfolding or_failed
or_failed-done Status.nats_ok err fmt shown e = refl
or_failed-done _ err fmt shown e = cc

publish_headed-done :
    (c : Client) (subject : String) (r : Result (Unit {0})) (s t : Connection)
    → publish_headed c subject (r, s) ≡ (done, t)
    → (r ≡ done)
      × (t.trace ≡ destroyed_msg ∷ called "natsConnection_PublishMsg" [] Status.nats_ok ∷ s.trace)
unfolding publish_headed call
publish_headed-done c subject (raise x) s t e = cc
publish_headed-done c subject (ok u) s t e =
    let st = c.call_status s.trace "natsConnection_PublishMsg" [] in
    let good : st ≡ Status.nats_ok = or_failed-done st _ _ _ (ap (λ p. p.0) e) in
    (
      refl,
      sym (ap (λ p. p.1.trace) e)
          ∙ ap (λ x. destroyed_msg ∷ called "natsConnection_PublishMsg" [] x ∷ s.trace) good,
    )

abbrev create_args : String → List ℕ → List Arg
create_args subject payload = text subject ∷ bytes payload

-- The trace of a publication that succeeds.
pub sent : String → List ℕ → Option Fields → List Event → List Event
sent subject payload headers tr =
    destroyed_msg
    ∷ called "natsConnection_PublishMsg" [] Status.nats_ok
    ∷ set_events (headers_or_none headers) (
        created_msg
        ∷ called "natsMsg_Create" (create_args subject payload) Status.nats_ok
        ∷ checked false
        ∷ tr)

publish_created-done :
    (c : Client) (subject : String) (headers : Option Fields) (st : Status) (s t : Connection)
    → publish_created c subject headers st s ≡ (done, t)
    → (st ≡ Status.nats_ok)
      × (t.trace
          ≡ destroyed_msg
            ∷ called "natsConnection_PublishMsg" [] Status.nats_ok
            ∷ set_events (headers_or_none headers) (created_msg ∷ s.trace))
unfolding publish_created
publish_created-done c subject headers Status.nats_ok s t e =
    let (r, u) = set_headers c (headers_or_none headers) (log created_msg s) in
    let (good, tr) = publish_headed-done c subject r u t e in
    (
      refl,
      tr
          ∙ ap (λ x. destroyed_msg ∷ called "natsConnection_PublishMsg" [] Status.nats_ok ∷ x)
              (set_headers-done c (headers_or_none headers) (log created_msg s) u
                (ap (λ x. (x, u)) good)),
    )
publish_created-done c subject headers _ s t e = cc

guarded-done :
    (err : String) (c : Client) (rest : Connection → Result (Unit {0}) × Connection)
    (s t : Connection)
    → guarded err c rest s ≡ (done, t)
    → rest (log (checked false) s) ≡ (done, t)
unfolding guarded check
guarded-done err c rest s t e = ground arith

-- A publishMsg that succeeds has made the message, set exactly the headers that are strings, in their
-- order, each successfully, published the message and destroyed it, and nothing else.
pub publish_msg-sent :
    (c : Client) (subject : String) (payload : List ℕ) (headers : Option Fields) (s t : Connection)
    → publish_msg c subject payload headers s ≡ (done, t)
    → t.trace ≡ sent subject payload headers s.trace
unfolding publish_msg publish_rest sent
publish_msg-sent c subject payload headers s t e =
    let v = log (checked false) s in
    let st = c.call_status v.trace "natsMsg_Create" (create_args subject payload) in
    let w = log (called "natsMsg_Create" (create_args subject payload) st) v in
    let on = guarded-done _ c (publish_rest c subject payload headers) s t e in
    let (good, tr) = publish_created-done c subject headers st w t on in
    tr
    ∙ ap
        (λ x.
          destroyed_msg
          ∷ called "natsConnection_PublishMsg" [] Status.nats_ok
          ∷ set_events (headers_or_none headers)
              (created_msg ∷ called "natsMsg_Create" (create_args subject payload) x ∷ v.trace))
        good
