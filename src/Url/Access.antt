-- ===== src/Url/Access.antt =====
-- check_nats_network_access of src/NatsHelper.cpp: what a connection may be made to.
use module_nats.Common.{
  ℕ, ◌%◌, ◌^◌, ◌≡◌, refl, Bool, true, Option, none, some, List, [], ◌∷◌, if◌then◌else◌, All, arith,
  Bool-cases, Option-cases, inl, inr, ◌⊎◌,
}
use module_nats.Url.{parse_nats_url}

-- The sandbox manager, if there is one, and getaddrinfo. An address is named by a number.
pub record Policy : Type 0 where
  pub sandboxed : Bool
  pub check_hostname : List ℕ → ℕ → Bool
  pub resolve : List ℕ → Option (List ℕ)
  pub check_network_access : ℕ → ℕ → Bool

-- 0, or -1 with an exception: of this function for a host, or of the sandbox manager for an address
pub data Access : Type 0 where
  allowed host_denied unresolved address_denied : Access

-- the loop over the addresses, which get the port in 16 bits: `htons(port)`
unfoldable pub check_addresses : Policy → ℕ → List ℕ → Access
check_addresses p port [] = allowed
check_addresses p port (a ∷ rest) =
    let next = check_addresses p port rest in
    if p.check_network_access a (port % 2 ^ 16) then next else address_denied

unfoldable pub check_resolved : Policy → ℕ → Option (List ℕ) → Access
unfolding check_addresses
check_resolved p port none = unresolved
check_resolved p port (some found) = check_addresses p port found

-- the checks behind the parsing of the URL
unfoldable pub check_host : Policy → List ℕ × ℕ → Access
unfolding check_resolved
check_host p ([], port) = allowed
check_host p (c ∷ host, port) =
    if p.check_hostname (c ∷ host) port
    then check_resolved p port (p.resolve (c ∷ host))
    else host_denied

unfoldable pub check_nats_network_access : Policy → List ℕ → Access
unfolding check_host
check_nats_network_access p url = if p.sandboxed then check_host p (parse_nats_url url) else allowed

-- The policy permits the host, with the port, and each of its addresses, with the port's low 16 bits.
pub record Permits (p : Policy) (host : List ℕ) (port : ℕ) : Type 0 where
  pub by_name : p.check_hostname host port ≡ true
  pub found : List ℕ
  pub resolved : p.resolve host ≡ some found
  pub by_address : All (λ a. p.check_network_access a (port % 2 ^ 16) ≡ true) found

check_addresses-allowed :
    (p : Policy) (port : ℕ) (found : List ℕ)
    → check_addresses p port found ≡ allowed
    → All (λ a. p.check_network_access a (port % 2 ^ 16) ≡ true) found
unfolding check_addresses
check_addresses-allowed p port [] e = tt
check_addresses-allowed p port (a ∷ rest) e =
    elim (Bool-cases (p.check_network_access a (port % 2 ^ 16))) [
      | inl good ↦ (good, check_addresses-allowed p port rest (ground arith))
      | inr bad ↦ ground arith
    ]

check_host-allowed :
    (p : Policy) (host : List ℕ) (port : ℕ)
    → check_host p (host, port) ≡ allowed
    → (host ≡ []) ⊎ Permits p host port
unfolding check_host check_resolved
check_host-allowed p [] port e = inl refl
check_host-allowed p (c ∷ host) port e = elim (Bool-cases (p.check_hostname (c ∷ host) port)) [
  | inl good ↦ elim (Option-cases (p.resolve (c ∷ host))) [
    | inl q ↦ ground arith
    | inr (found, q) ↦ inr (record {
      by_name = good;
      found = found;
      resolved = q;
      by_address = check_addresses-allowed p port found (ground arith);
    })
  ]
  | inr bad ↦ ground arith
]

-- Under a sandbox, a URL is let through only if it has no host, or if the policy permits the host by
-- its name and port, the host is resolved, and the policy permits each address found, with the port
-- modulo 2^16, as it stands in a socket address.
pub check_nats_network_access-Permits :
    (p : Policy) (url : List ℕ)
    → p.sandboxed ≡ true
    → check_nats_network_access p url ≡ allowed
    → ((parse_nats_url url).0 ≡ []) ⊎ Permits p (parse_nats_url url).0 (parse_nats_url url).1
unfolding check_nats_network_access
check_nats_network_access-Permits p url h e =
    check_host-allowed p (parse_nats_url url).0 (parse_nats_url url).1 (ground arith)
