-- ===== src/Dialer.antt =====
-- NatsSandboxDialer of src/NatsHelper.cpp and .h: the connections that the C client makes under the
-- network sandbox of the code that created the connection.
pub mod Permitted
mod Tests
use module_nats.Common.{
  ℕ, zero, suc, ◌+◌, ◌/◌, ◌<◌, ℤ, pos, negsuc, ◌≡◌, Bool, true, false, not, ◌&&◌, Option, none,
  some, List, [], ◌∷◌, ◌++◌, ◌==◌, ltb, if◌then◌else◌, length,
}
use module_nats.Runtime.{Status, Exception}

-- AF_UNSPEC, AF_INET, AF_INET6
pub data Family : Type 0 where
  unspec inet inet6 : Family

-- The host's resolver, the network policy of the sandbox manager (`sandboxed` says whether there is
-- one) and the attempts to connect, which give a status and perhaps an exception. An address is named
-- by a number that stands for it.
pub record Network : Type 0 where
  pub resolve : Family → List ℕ
  pub shuffle : List ℕ → List ℕ
  pub sandboxed : Bool
  pub check_network_access : ℕ → Bool
  pub connect_address : List ℕ → ℕ → ℕ → Status × Option Exception
  pub min_timeout_per_address : ℕ  -- NATS_MIN_CONNECT_TIMEOUT_PER_ADDRESS_MS

-- `tried` are the addresses that connectAddress was called with, newest first.
pub record Dialer : Type 0 where
  pub timeout_ms : ℕ
  pub order_ip : ℕ
  pub no_randomize : Bool
  pub initial : Bool
  pub pending : Option Exception
  pub tried : List ℕ

-- `timeout_ms > 0 ? timeout_ms : NATS_DEFAULT_CONNECT_TIMEOUT_MS`
abbrev pub timeout_or : ℕ → ℤ → ℕ
timeout_or default (pos zero) = default
timeout_or default (pos (suc n)) = suc n
timeout_or default (negsuc n) = default

-- the constructor
abbrev pub create : ℕ → ℤ → ℕ → Bool → Dialer
create default timeout_ms order_ip no_randomize = record {
  timeout_ms = timeout_or default timeout_ms;
  order_ip = order_ip;
  no_randomize = no_randomize;
  initial = true;
  pending = none;
  tried = [];
}

-- takeException: what is assimilated, and the state
unfoldable pub take_exception : Dialer → Option Exception × Dialer
take_exception d = (d.pending, record d { initial = false; pending = none })

unfoldable pub keep_exception : Exception → Dialer → Dialer
keep_exception e d = elim d.pending [
  | none ↦ if d.initial then record d { pending = some e } else d
  | some _ ↦ d
]

-- the switch over the IP resolution order
unfoldable pub families : ℕ → List Family
families order_ip =
    if order_ip == 4
    then Family.inet ∷ []
    else (if order_ip == 6
        then Family.inet6 ∷ []
        else (if order_ip == 46
            then Family.inet ∷ Family.inet6 ∷ []
            else (if order_ip == 64 then Family.inet6 ∷ Family.inet ∷ [] else Family.unspec ∷ [])))

-- the addresses of a family, in the order in which they are tried
unfoldable pub family_addresses : Network → Bool → List ℕ → List ℕ
family_addresses net no_randomize found =
    if not no_randomize && ltb 1 (length found) then net.shuffle found else found

unfoldable pub addresses : Network → Bool → List Family → List ℕ
unfolding family_addresses
addresses net no_randomize [] = []
addresses net no_randomize (f ∷ fs) =
    family_addresses net no_randomize (net.resolve f) ++ addresses net no_randomize fs

-- `total` is the number of addresses, which is not 0.
unfoldable pub per_address : Network → ℕ → ℕ → ℕ
per_address net timeout_ms zero = 0
per_address net timeout_ms (suc n) =
    if ltb (timeout_ms / suc n) net.min_timeout_per_address
    then net.min_timeout_per_address
    else timeout_ms / suc n

-- the policy's answer for an address
abbrev pub permitted : Network → ℕ → Bool
permitted net a = if net.sandboxed then net.check_network_access a else true

abbrev pub tries : ℕ → Dialer → Dialer
tries a d = record d { tried = a ∷ d.tried }

-- What follows an attempt to connect.
unfoldable pub attempt_case :
    (Dialer → Status × Dialer) → Status × Option Exception → Dialer → Status × Dialer
unfolding keep_exception
attempt_case rest (Status.nats_ok, e) d = (Status.nats_ok, d)
attempt_case rest (st, some e) d = (Status.nats_err, keep_exception e d)
attempt_case rest (st, none) d = rest d

-- the loop over the addresses
unfoldable pub dial : Network → ℕ → Bool → List ℕ → Dialer → Status × Dialer
unfolding attempt_case
dial net ms denied [] d = ((if denied then Status.nats_not_permitted else Status.nats_no_server), d)
dial net ms denied (a ∷ rest) d =
    let next = dial net ms true rest d in
    if permitted net a
    then attempt_case (dial net ms denied rest) (net.connect_address d.tried a ms) (tries a d)
    else next

unfoldable pub dial_all : Network → List ℕ → Dialer → Status × Dialer
unfolding dial per_address
dial_all net [] d = (Status.nats_no_server, d)
dial_all net (a ∷ rest) d =
    dial net (per_address net d.timeout_ms (length (a ∷ rest))) false (a ∷ rest) d

-- NatsSandboxDialer::connectIntern
unfoldable pub connect_intern : Network → Dialer → Status × Dialer
unfolding families addresses dial_all
connect_intern net d = dial_all net (addresses net d.no_randomize (families d.order_ip)) d
