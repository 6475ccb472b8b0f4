-- ===== src/Dialer/Tests.antt =====
-- The theorems on the dialer at a concrete run.
use module_nats.Common.{ℕ, pos, true, false, none, List, [], ◌∷◌, ◌==◌, if◌then◌else◌, reverse}
use module_nats.Runtime.{Status}
use module_nats.Dialer.{Network, Dialer, Family, create, connect_intern}
use module_nats.Dialer.Permitted.{Connected, connect_intern-Connected}

abbrev addresses_of : Family → List ℕ
addresses_of Family.inet = 1 ∷ 2 ∷ 3 ∷ []
addresses_of _ = []

-- Address 1 is denied, 2 does not answer, 3 does.
abbrev network : Network
network = record {
  resolve = addresses_of;
  shuffle = reverse;
  sandboxed = true;
  check_network_access = λ a. if a == 1 then false else true;
  connect_address =
      λ before a ms. if a == 3 then (Status.nats_ok, none) else (Status.nats_timeout, none);
  min_timeout_per_address = 10;
}

abbrev dialer : Dialer
dialer = create 2000 (pos 0) 46 true

connect_intern-Connected_example : Connected network dialer (connect_intern network dialer)
connect_intern-Connected_example = connect_intern-Connected network dialer
