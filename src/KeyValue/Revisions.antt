-- ===== src/KeyValue/Revisions.antt =====
-- Revisions pass through a signed 64-bit integer of Qore, and what the methods of the store answer.
use module_nats.Common.{ℕ, ◌<◌, ◌^◌, ℤ, String, ◌≡◌, refl, List, arith}
use module_nats.Common.Int.{int64, uint64, uint64-int64}
use module_nats.Runtime.{Status, Arg, ok, or_failed}
use module_nats.KeyValue.Client.{Event, Client, Handle, check, kv_error}
use module_nats.KeyValue.Store.{write}

revision_case :
    (st : Status) (rev : ℕ) (fmt : String) (shown : List Arg) (z : ℤ)
    → rev < 2 ^ 64
    → or_failed st kv_error fmt shown (int64 rev) ≡ ok z
    → (st ≡ Status.nats_ok) × (rev ≡ uint64 z)
unfolding or_failed
revision_case Status.nats_ok rev fmt shown z h e = (refl, ground (arith, uint64-int64 rev h))
revision_case _ rev fmt shown z h e = cc

-- A write (put, putString, create, update) that returns a revision returns the one that the C client
-- answered: handed to update, which takes it as a uint64_t, it is the same number, also from 2^63 on.
pub uint64-write :
    (c : Client) (name fmt : String) (shown args : List Arg) (s t : Handle) (z : ℤ)
    → ((tr : List Event) → (c.write tr name args).1 < 2 ^ 64)
    → write c name fmt shown args s ≡ (ok z, t)
    → c.write (check c s).1.trace name args ≡ (Status.nats_ok, uint64 z)
unfolding write
uint64-write c name fmt shown args s t z range e =
    let tr = (check c s).1.trace in
    let (st, rev) = c.write tr name args in
    ground (arith, revision_case st rev fmt shown z (range tr))
