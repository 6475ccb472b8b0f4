-- ===== src/KeyValue/Memory.antt =====
-- Who frees the entries that a store or a watcher receives.
use module_nats.Common.{
  ℕ, ◌+◌, ℤ, String, ◌≡◌, refl, Bool, true, false, Option, none, some, List, [], ◌∷◌, ◌==◌, arith,
}
use module_nats.Value.{Value, Fields}
use module_nats.Runtime.{Status, Arg, text, Result, ok, raise}
use module_nats.Poll.Ensures.{poll-keeps}
use module_nats.KeyValue.Entry.{EntryInfo}
use module_nats.KeyValue.Client.{
  Event, received, destroyed, Client, Handle, WatchOptions, create, log, check, guarded, waited,
  called,
}
use module_nats.KeyValue.Store.{
  write_rest, write, put, put_string, create_key, update, get_case, get_rest, get, call_rest, call,
  del, purge, keys_rest, keys, destroy_entries, receive_entries, history_case, history_rest,
  history, status_rest, status,
}
use module_nats.KeyValue.Watcher.{
  configure_watch_options, key_array, watch, watch_all, watch_keys, watch_multi, next_case,
  next_wait, next, stop,
}

abbrev pub one_if : Bool → ℕ
one_if true = 1
one_if false = 0

-- How often the C client handed the entry over, and how often it was destroyed.
pub got : ℕ → List Event → ℕ
got m [] = 0
got m (received k ∷ t) = one_if (k == m) + got m t
got m (_ ∷ t) = got m t

pub freed : ℕ → List Event → ℕ
freed m [] = 0
freed m (destroyed k ∷ t) = one_if (k == m) + freed m t
freed m (_ ∷ t) = freed m t

-- How often an entry stands in a list.
owed : ℕ → List ℕ → ℕ
owed m [] = 0
owed m (k ∷ ks) = one_if (k == m) + owed m ks

abbrev pub Balanced : ℕ → Handle → Type 0
Balanced m s = got m s.trace ≡ freed m s.trace

destroy_entries-Balanced :
    (m : ℕ) (es : List ℕ) (s : Handle)
    → got m s.trace ≡ freed m s.trace + owed m es
    → Balanced m (destroy_entries es s)
unfolding destroy_entries got freed owed
destroy_entries-Balanced m [] s b = omega (arith, b)
destroy_entries-Balanced m (e ∷ es) s b =
    destroy_entries-Balanced m es (log (destroyed e) s) (ground arith)

receive_entries_lem :
    (m n : ℕ) (es : List ℕ) (s : Handle)
    → got m s.trace ≡ freed m s.trace + n
    → got m (receive_entries es s).trace ≡ freed m (receive_entries es s).trace + n + owed m es
unfolding receive_entries got freed owed
receive_entries_lem m n [] s b = omega (arith, b)
receive_entries_lem m n (e ∷ es) s b =
    let ih = receive_entries_lem m (one_if (e == m) + n) es (log (received e) s) (ground arith) in
    omega (arith, ih)

module _ (m : ℕ) (c : Client) where
  check-Balanced : (s : Handle) → Balanced m s → Balanced m (check c s).1
  unfolding check got freed
  check-Balanced s b = b

  guarded-Balanced {ℓ} :
      {A : Type ℓ} (rest : Handle → Result A × Handle) (s : Handle)
      → ((t : Handle) → Balanced m t → Balanced m (rest t).1)
      → Balanced m s
      → Balanced m (guarded c rest s).1
  unfolding guarded
  guarded-Balanced rest s keep b = ground (arith, check-Balanced s b, keep (check c s).1)

  get_case-Balanced :
      (key : String) (st : Status) (e : ℕ) (s : Handle)
      → Balanced m s
      → Balanced m (get_case c key st e s).1
  unfolding get_case got freed
  get_case-Balanced key Status.nats_ok e s b = ground arith
  get_case-Balanced key Status.nats_not_found e s b = b
  get_case-Balanced key _ e s b = b

  history_case-Balanced :
      (key : String) (st : Status) (es : List ℕ) (s : Handle)
      → Balanced m s
      → Balanced m (history_case c key st es s).1
  unfolding history_case
  history_case-Balanced key Status.nats_ok es s b =
      destroy_entries-Balanced m es (receive_entries es s)
        (omega (arith, receive_entries_lem m 0 es s (omega (arith, b))))
  history_case-Balanced key Status.nats_not_found es s b = b
  history_case-Balanced key _ es s b = b

  next_case-Balanced :
      (st : Status) (e : Option ℕ) (s : Handle) → Balanced m s → Balanced m (next_case c st e s).1
  unfolding next_case got freed
  next_case-Balanced Status.nats_ok (some e) s b = ground arith
  next_case-Balanced Status.nats_ok none s b = b
  next_case-Balanced Status.nats_timeout e s b = b
  next_case-Balanced _ e s b = b

  next_wait-Balanced : (w : ℤ) (s : Handle) → Balanced m s → Balanced m (next_wait c w s).1
  unfolding next_wait got freed
  next_wait-Balanced w s b =
      let (st, e) = c.next s.trace w in next_case-Balanced st e (log (waited w st) s) b

  next-Balanced :
      (fuel : ℕ) (r : ℤ) (s : Handle) (x : Result (Option EntryInfo)) (t : Handle)
      → next c fuel r s ≡ some (x, t)
      → Balanced m s
      → Balanced m t
  unfolding next
  next-Balanced fuel r s x t e b = ground (
    arith,
    check-Balanced s b,
    poll-keeps (Balanced m) (check c) (next_wait c) check-Balanced next_wait-Balanced
        c.poll_interval false (ok none) fuel r (check c s).1 x t,
  )

-- One method call on a store or on a watcher.
pub data Step (c : Client) (s : Handle) : Handle → Type 0 where
  puts : (key : String) (value : List ℕ) → Step c s (put c key value s).1
  puts_string : (key value : String) → Step c s (put_string c key value s).1
  creates : (key : String) (value : List ℕ) → Step c s (create_key c key value s).1
  updates : (key : String) (value : List ℕ) (rev : ℕ) → Step c s (update c key value rev s).1
  gets : (key : String) → Step c s (get c key s).1
  deletes : (key : String) → Step c s (del c key s).1
  purges : (key : String) → Step c s (purge c key s).1
  lists_keys : Step c s (keys c s).1
  reads_history : (key : String) → Step c s (history c key s).1
  reads_status : Step c s (status c s).1
  watches : (pid : ℕ) (key : String) (opts : Option Fields) → Step c s (watch c pid key opts s).1
  watches_all : (pid : ℕ) (opts : Option Fields) → Step c s (watch_all c pid opts s).1
  watches_multi :
      (pid : ℕ) (ks : List Value) (opts : Option Fields) → Step c s (watch_multi c pid ks opts s).1
  nexts :
      {t : Handle} (fuel : ℕ) (timeout : ℤ) (x : Result (Option EntryInfo))
      → next c fuel timeout s ≡ some (x, t)
      → Step c s t
  stops : Step c s (stop c s).1

pub data Reach (c : Client) (pid : ℕ) (is_set : Bool) : Handle → Type 0 where
  created : Reach c pid is_set (create pid is_set)
  later : {s t : Handle} → Reach c pid is_set s → Step c s t → Reach c pid is_set t

module _ (m : ℕ) (c : Client) where
  write-Balanced :
      (name fmt : String) (shown args : List Arg) (s : Handle)
      → Balanced m s
      → Balanced m (write c name fmt shown args s).1
  unfolding write got freed
  write-Balanced name fmt shown args s b =
      guarded-Balanced m c (write_rest c name fmt shown args) s (λ t q. q) b

  call-Balanced :
      (name fmt : String) (shown args : List Arg) (s : Handle)
      → Balanced m s
      → Balanced m (call c name fmt shown args s).1
  unfolding call got freed
  call-Balanced name fmt shown args s b =
      guarded-Balanced m c (call_rest c name fmt shown args) s (λ t q. q) b

  watch-Balanced :
      (pid : ℕ) (key : String) (o : Option Fields) (s : Handle)
      → Balanced m s
      → Balanced m (watch c pid key o s).1
  unfolding watch got freed
  watch-Balanced pid key o s b = ground arith

  watch_all-Balanced :
      (pid : ℕ) (o : Option Fields) (s : Handle) → Balanced m s → Balanced m (watch_all c pid o s).1
  unfolding watch_all got freed
  watch_all-Balanced pid o s b = ground arith

  watch_keys-Balanced :
      (pid : ℕ) (o : WatchOptions) (r : Result (List Arg)) (s : Handle)
      → Balanced m s
      → Balanced m (watch_keys c pid o r s).1
  unfolding watch_keys got freed
  watch_keys-Balanced pid o (ok ks) s b = b
  watch_keys-Balanced pid o (raise e) s b = b

  watch_multi-Balanced :
      (pid : ℕ) (ks : List Value) (o : Option Fields) (s : Handle)
      → Balanced m s
      → Balanced m (watch_multi c pid ks o s).1
  unfolding watch_multi
  watch_multi-Balanced pid [] o s b = ground (arith, check-Balanced m c s b)
  watch_multi-Balanced pid (k ∷ ks) o s b =
      guarded-Balanced m c (watch_keys c pid (configure_watch_options c o) (key_array 0 (k ∷ ks))) s
        (λ t q. watch_keys-Balanced pid _ _ t q) b

  history_rest-Balanced :
      (key : String) (s : Handle) → Balanced m s → Balanced m (history_rest c key s).1
  unfolding history_rest got freed
  history_rest-Balanced key s b =
      let (st, es) = c.history s.trace key in
      history_case-Balanced m c key st es (log (called "kvStore_History" (text key ∷ []) st) s) b

  Step-Balanced : {s t : Handle} → Step c s t → Balanced m s → Balanced m t
  unfolding put put_string create_key update get del purge keys history status stop got freed
  Step-Balanced {s} (puts key v) b = write-Balanced _ _ _ _ s b
  Step-Balanced {s} (puts_string key v) b = write-Balanced _ _ _ _ s b
  Step-Balanced {s} (creates key v) b = write-Balanced _ _ _ _ s b
  Step-Balanced {s} (updates key v rev) b = write-Balanced _ _ _ _ s b
  Step-Balanced {s} (gets key) b =
      guarded-Balanced m c (get_rest c key) s (λ t q. get_case-Balanced m c key _ _ (log _ t) q) b
  Step-Balanced {s} (deletes key) b = call-Balanced _ _ _ _ s b
  Step-Balanced {s} (purges key) b = call-Balanced _ _ _ _ s b
  Step-Balanced {s} lists_keys b = guarded-Balanced m c (keys_rest c) s (λ t q. q) b
  Step-Balanced {s} (reads_history key) b =
      guarded-Balanced m c (history_rest c key) s (history_rest-Balanced key) b
  Step-Balanced {s} reads_status b = guarded-Balanced m c (status_rest c) s (λ t q. q) b
  Step-Balanced {s} (watches pid key o) b = watch-Balanced pid key o s b
  Step-Balanced {s} (watches_all pid o) b = watch_all-Balanced pid o s b
  Step-Balanced {s} (watches_multi pid ks o) b = watch_multi-Balanced pid ks o s b
  Step-Balanced {s} {t} (nexts f r x e) b = next-Balanced m c f r s x t e b
  Step-Balanced {s} stops b = ground arith

  -- After any method calls on a new store or watcher, each entry that the C client handed over was
  -- destroyed exactly as often as it was handed over.
  pub Reach-Balanced : {p : ℕ} {is_set : Bool} {s : Handle} → Reach c p is_set s → Balanced m s
  unfolding got freed
  Reach-Balanced created = refl
  Reach-Balanced (later r st) = Step-Balanced st (Reach-Balanced r)
