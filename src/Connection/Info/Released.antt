-- ===== src/Connection/Info/Released.antt =====
-- Who frees what the C client allocates for the getters of QoreNatsConnection
-- (src/QoreNatsConnection.cpp).
use module_nats.Common.{
  ℕ, suc, ◌+◌, ◌≡◌, ℤ, String, Bool, true, false, ◌&&◌, ◌==◌, Option, none, some, List, [], ◌∷◌,
  arith, All, if◌then◌else◌,
}
use module_nats.Runtime.{Status, Result, ok, raise, set_failed}
use module_nats.Message.{Refuses}
use module_nats.Hash.{Hash, Write}
use module_nats.Connection.Info.{
  Which, known, discovered, Block, client_ip, local_ip, statistics, array, entry, Event, checked,
  allocated, freed, Client, State, log, connected, cancellable, bind, ip_case, local_keys,
  local_case, stats_case, allocate_entries, free_entries, server_list, list_found, servers_case,
}
use module_nats.Connection.Info.Overview.{
  Stage, run, answered, always, local_stage_case, servers_stage,
}

abbrev same_list : Which → Which → Bool
same_list known known = true
same_list discovered discovered = true
same_list _ _ = false

abbrev same : Block → Block → Bool
same client_ip client_ip = true
same local_ip local_ip = true
same statistics statistics = true
same (array w) (array v) = same_list w v
same (entry w i) (entry v j) = same_list w v && i == j
same _ _ = false

abbrev one_if : Bool → ℕ
one_if true = 1
one_if false = 0

-- How often the block was allocated, and how often it was freed.
unfoldable pub taken : Block → List Event → ℕ
taken b [] = 0
taken b (checked x ∷ t) = taken b t
taken b (allocated a ∷ t) = one_if (same a b) + taken b t
taken b (freed a ∷ t) = taken b t

unfoldable pub given : Block → List Event → ℕ
given b [] = 0
given b (checked x ∷ t) = given b t
given b (allocated a ∷ t) = given b t
given b (freed a ∷ t) = one_if (same a b) + given b t

module _ (b : Block) where
  -- The connection still has to free the block `n` times.
  abbrev pub Owes : ℕ → State → Type 0
  Owes n s = taken b s.trace ≡ given b s.trace + n

  -- how often the block is among the entries from the index `i` on
  owed : Which → ℕ → List String → ℕ
  owed w i [] = 0
  owed w i (x ∷ xs) = one_if (same (entry w i) b) + owed w (suc i) xs

  allocate_entries-Owes :
      (w : Which) (i : ℕ) (xs : List String) (n : ℕ) (s : State)
      → Owes n s
      → Owes (owed w i xs + n) (allocate_entries w i xs s)
  unfolding allocate_entries owed taken given
  allocate_entries-Owes w i [] n s h = omega (arith, h)
  allocate_entries-Owes w i (x ∷ xs) n s h = omega (
    arith,
    allocate_entries-Owes w (suc i) xs (one_if (same (entry w i) b) + n)
        (log (allocated (entry w i)) s) (omega (arith, h)),
  )

  free_entries-Owes :
      (w : Which) (i : ℕ) (xs : List String) (n : ℕ) (s : State)
      → Owes (owed w i xs + n) s
      → Owes n (free_entries w i xs s)
  unfolding free_entries owed taken given
  free_entries-Owes w i [] n s h = omega (arith, h)
  free_entries-Owes w i (x ∷ xs) n s h =
      free_entries-Owes w (suc i) xs n (log (freed (entry w i)) s) (omega (arith, h))

  pub bind-Owes {ℓ κ} :
      {A : Type ℓ} {B : Type κ} (r : Result A × State) (k : A → State → Result B × State)
      → Owes 0 r.1
      → ((a : A) (t : State) → Owes 0 t → Owes 0 (k a t).1)
      → Owes 0 (bind r k).1
  unfolding bind
  bind-Owes (ok a, t) k h f = f a t h
  bind-Owes (raise e, t) k h f = h

  either-Owes {ℓ} :
      {A : Type ℓ} (c : Bool) (x y : Result A × State)
      → Owes 0 x.1
      → Owes 0 y.1
      → Owes 0 (if c then x else y).1
  either-Owes true x y h k = h
  either-Owes false x y h k = k

  server_list-Owes :
      (refuses : ℕ → Bool) (w : Which) (i : ℕ) (xs : List String) (s : State)
      → Owes (owed w i xs + one_if (same (array w) b)) s
      → Owes 0 (server_list refuses w i xs s).1
  unfolding server_list owed taken given
  server_list-Owes refuses w i [] s h = omega (arith, h)
  server_list-Owes refuses w i (x ∷ xs) s h =
      let t = log (freed (entry w i)) s in
      let others =
        free_entries-Owes w (suc i) xs (one_if (same (array w) b)) t (omega (arith, h)) in
      let ih = server_list-Owes refuses w (suc i) xs t (omega (arith, h)) in
      either-Owes (refuses i)
        (raise (set_failed "push"), log (freed (array w)) (free_entries w (suc i) xs t))
        (bind (server_list refuses w (suc i) xs t) λ ys u. (ok (x ∷ ys), u)) (omega (arith, others))
        (bind-Owes (server_list refuses w (suc i) xs t) (λ ys u. (ok (x ∷ ys), u)) ih λ ys u k. k)

  list_found-Owes :
      (c : Client) (w : Which) (xs : List String) (s : State)
      → Owes 0 s
      → Owes 0 (list_found c w xs s).1
  unfolding list_found taken given
  list_found-Owes c w [] s h = omega (arith, h)
  list_found-Owes c w (x ∷ xs) s h =
      let t = log (allocated (array w)) s in
      server_list-Owes (c.push_refuses w) w 0 (x ∷ xs) (allocate_entries w 0 (x ∷ xs) t)
        (allocate_entries-Owes w 0 (x ∷ xs) (one_if (same (array w) b)) t (omega (arith, h)))

  pub servers_case-Owes :
      (c : Client) (w : Which) (fmt : String) (a : Status × Option (List String)) (s : State)
      → Owes 0 s
      → Owes 0 (servers_case c w fmt a s).1
  unfolding servers_case
  servers_case-Owes c w fmt (Status.nats_ok, none) s h = h
  servers_case-Owes c w fmt (Status.nats_ok, some xs) s h = list_found-Owes c w xs s h
  servers_case-Owes c w fmt (st, xs) s h = h

  pub ip_case-Owes {ℓ} :
      {A : Type ℓ} (d : A) (f : String → A) (a : Status × Option String) (s : State)
      → Owes 0 s
      → Owes 0 (ip_case d f a s).1
  unfolding ip_case taken given
  ip_case-Owes d f (Status.nats_ok, some ip) s h = omega (arith, h)
  ip_case-Owes d f (_, _) s h = h

  local_keys-Owes :
      (refuses : Refuses) (k l : String) (g : Hash) (ip : Option String) (port : ℤ) (s : State)
      → Owes 0 s
      → Owes 0 (local_keys refuses k l g ip port s).1
  unfolding local_keys taken given
  local_keys-Owes refuses k l g none port s h = h
  local_keys-Owes refuses k l g (some ip) port s h = omega (arith, h)

  pub local_case-Owes :
      (c : Client) (a : Status × Option String × ℤ) (s : State)
      → Owes 0 s
      → Owes 0 (local_case c a s).1
  unfolding local_case
  local_case-Owes c (Status.nats_ok, ip, port) s h = local_keys-Owes c.set_refuses _ _ _ ip port s h
  local_case-Owes c (st, ip, port) s h = h

  pub local_stage_case-Owes :
      (refuses : Refuses) (a : Status × Option String × ℤ) (g : Hash) (s : State)
      → Owes 0 s
      → Owes 0 (local_stage_case refuses a g s).1
  unfolding local_stage_case
  local_stage_case-Owes refuses (Status.nats_ok, ip, port) g s h =
      local_keys-Owes refuses _ _ g ip port s h
  local_stage_case-Owes refuses (st, ip, port) g s h = h

  pub stats_case-Owes :
      (c : Client) (x y : Status) (s : State) → Owes 0 s → Owes 0 (stats_case c x y s).1
  unfolding stats_case taken given
  stats_case-Owes c Status.nats_ok Status.nats_ok s h = omega (arith, h)
  stats_case-Owes c Status.nats_ok st s h = omega (arith, h)
  stats_case-Owes c st st' s h = h

  pub connected-Owes {ℓ} :
      {A : Type ℓ} (rest : State → Result A × State) (s : State)
      → ((t : State) → Owes 0 t → Owes 0 (rest t).1)
      → Owes 0 s
      → Owes 0 (connected rest s).1
  unfolding connected
  connected-Owes rest s f h = either-Owes s.is_set (rest s) _ (f s h) h

  pub cancellable-Owes {ℓ} :
      {A : Type ℓ} (c : Client) (rest : State → Result A × State) (s : State)
      → ((t : State) → Owes 0 t → Owes 0 (rest t).1)
      → Owes 0 s
      → Owes 0 (cancellable c rest s).1
  unfolding cancellable taken given
  cancellable-Owes c rest s f h =
      let t = log (checked (c.check_cancel s.trace)) s in
      either-Owes (c.check_cancel s.trace) _ (rest t) h (f t h)

  -- A stage of getConnectionInfo keeps the balance.
  abbrev pub Keeps : Stage → Type 0
  Keeps a = (g : Hash) (s : State) → Owes 0 s → Owes 0 (a g s).1

  pub run-Owes : (ks : List Stage) → All Keeps ks → Keeps (run ks)
  unfolding run
  run-Owes [] h g s k = k
  run-Owes (a ∷ rest) (h, hs) g s k = bind-Owes (a g s) (run rest) (h g s k) (run-Owes rest hs)

  pub answered-Owes : (refuses : Refuses) (st : Status) (w : Write) → Keeps (answered refuses st w)
  unfolding answered
  answered-Owes refuses Status.nats_ok w g s k = k
  answered-Owes refuses _ w g s k = k

  pub always-Owes : (refuses : Refuses) (ws : List Write) → Keeps (always refuses ws)
  unfolding always
  always-Owes refuses ws g s k = k

  pub servers_stage-Owes :
      (c : Client) (w : Which) (key : String) (a : Status × Option (List String))
      → Keeps (servers_stage c w key a)
  unfolding servers_stage
  servers_stage-Owes c w key (Status.nats_ok, some xs) g s k =
      bind-Owes (list_found c w xs s) _ (list_found-Owes c w xs s k) λ ys t h. h
  servers_stage-Owes c w key (_, _) g s k = k
