-- ===== src/JetStream/Memory.antt =====
-- Who frees what a JetStream context is handed over or allocates.
use module_nats.Common.{
  ℕ, ℤ, String, ◌+◌, ◌≡◌, ap, Bool, true, false, some, List, [], ◌∷◌, arith, ◌==◌,
}
use module_nats.Runtime.{Status, Arg, Result, ok, raise, ◌>>=◌}
use module_nats.Message.{MsgInfo}
use module_nats.JetStream.Parts.{Array, subjects_array, back_off_array, filter_array, Configured}
use module_nats.JetStream.Stream.{InfoHash}
use module_nats.JetStream.Client.{
  Call, Event, js_error, checked, called, received, destroyed, allocated, freed, Client, Context,
  check, guarded, ask, fetched_case, fetched, call_js, fetch, call, simple_case, simple,
}
use module_nats.JetStream.Streams.{log_allocated, free_arrays, configured_case, configured}
use module_nats.JetStream.Open.{found_case, found}

-- What has an owner: an object that the C client handed over, or an array of a configuration.
pub data Owned : Type 0 where
  object : ℕ → Owned
  array : Array → Owned

abbrev one_if : Bool → ℕ
one_if true = 1
one_if false = 0

abbrev same : Array → Array → Bool
same subjects_array subjects_array = true
same back_off_array back_off_array = true
same filter_array filter_array = true
same _ _ = false

-- How often it was handed over or allocated.
unfoldable pub taken : Owned → List Event → ℕ
taken o [] = 0
taken (object m) (received k ∷ t) = one_if (k == m) + taken (object m) t
taken (array a) (allocated b ∷ t) = one_if (same b a) + taken (array a) t
taken o (_ ∷ t) = taken o t

-- How often it was destroyed or freed.
unfoldable pub given : Owned → List Event → ℕ
given o [] = 0
given (object m) (destroyed k ∷ t) = one_if (k == m) + given (object m) t
given (array a) (freed b ∷ t) = one_if (same b a) + given (array a) t
given o (_ ∷ t) = given o t

abbrev pub Balanced : Owned → Context → Type 0
Balanced o s = taken o s.trace ≡ given o s.trace

-- How often it stands in a list of arrays.
owed : Owned → List Array → ℕ
owed o [] = 0
owed (array a) (b ∷ bs) = one_if (same b a) + owed (array a) bs
owed o (_ ∷ bs) = owed o bs

log_allocated-owed :
    (o : Owned) (bs : List Array) (s : Context)
    → Balanced o s
    → taken o (log_allocated bs s).trace ≡ given o (log_allocated bs s).trace + owed o bs
unfolding log_allocated taken given owed
log_allocated-owed o [] s b = omega (arith, b)
log_allocated-owed (object m) (a ∷ bs) s b = log_allocated-owed (object m) bs s b
log_allocated-owed (array x) (a ∷ bs) s b = omega (arith, log_allocated-owed (array x) bs s b)

free_arrays-owed :
    (o : Owned) (bs : List Array) (n : ℕ) (s : Context)
    → taken o s.trace ≡ given o s.trace + owed o bs + n
    → taken o (free_arrays bs s).trace ≡ given o (free_arrays bs s).trace + n
unfolding free_arrays taken given owed
free_arrays-owed o [] n s b = omega (arith, b)
free_arrays-owed (object m) (a ∷ bs) n s b = free_arrays-owed (object m) bs n s b
free_arrays-owed (array x) (a ∷ bs) n s b =
    omega (arith, free_arrays-owed (array x) bs (one_if (same a x) + n) s (omega (arith, b)))

destroyed-received :
    (o : Owned) (n : ℕ) (t : List Event)
    → taken o t ≡ given o t
    → taken o (destroyed n ∷ received n ∷ t) ≡ given o (destroyed n ∷ received n ∷ t)
unfolding taken given
destroyed-received (object m) n t b = ap (λ x. one_if (n == m) + x) b
destroyed-received (array a) n t b = b

called-owed :
    (o : Owned) (q : Call) (st : Status) (n : ℕ) (t : List Event)
    → taken o t ≡ given o t + n
    → taken o (called q st ∷ t) ≡ given o (called q st ∷ t) + n
unfolding taken given
called-owed (object m) q st n t b = b
called-owed (array a) q st n t b = b

checked-Balanced :
    (o : Owned) (stop : Bool) (t : List Event)
    → taken o t ≡ given o t
    → taken o (checked stop ∷ t) ≡ given o (checked stop ∷ t)
unfolding taken given
checked-Balanced (object m) stop t b = b
checked-Balanced (array a) stop t b = b

module _ (o : Owned) (c : Client) where
  pub guarded-Balanced {ℓ} :
      {A : Type ℓ} (err : String) (rest : Context → Result A × Context) (s : Context)
      → ((t : Context) → Balanced o t → Balanced o (rest t).1)
      → Balanced o s
      → Balanced o (guarded c err rest s).1
  unfolding guarded check
  guarded-Balanced err rest s keep b =
      let d = checked-Balanced o (c.check_cancel s.trace) s.trace b in
      ground (arith, keep (check c s).1 d)

  fetched_case-Balanced {ℓ} :
      {A : Type ℓ} (fmt : String) (shown : List Arg) (convert : ℕ → Result A) (a : Status × ℤ × ℕ)
      (s : Context)
      → Balanced o s
      → Balanced o (fetched_case fmt shown convert a s).1
  unfolding fetched_case
  fetched_case-Balanced fmt shown convert (Status.nats_ok, jerr, n) s b =
      destroyed-received o n s.trace b
  fetched_case-Balanced fmt shown convert (st, jerr, n) s b = b

  ask-Balanced : (q : Call) (s : Context) → Balanced o s → Balanced o (ask c q s).1
  ask-Balanced q s b =
      omega (arith, called-owed o q (c.answer s.trace q).0 0 s.trace (omega (arith, b)))

  fetched-Balanced {ℓ} :
      {A : Type ℓ} (q : Call) (fmt : String) (shown : List Arg) (convert : ℕ → Result A)
      (s : Context)
      → Balanced o s
      → Balanced o (fetched c q fmt shown convert s).1
  unfolding fetched
  fetched-Balanced q fmt shown convert s b =
      fetched_case-Balanced fmt shown convert (ask c q s).0 (ask c q s).1 (ask-Balanced q s b)

  pub fetch-Balanced {ℓ} :
      {A : Type ℓ} (q : Call) (fmt : String) (shown : List Arg) (convert : ℕ → Result A)
      (s : Context)
      → Balanced o s
      → Balanced o (fetch c q fmt shown convert s).1
  unfolding fetch
  fetch-Balanced q fmt shown convert s =
      guarded-Balanced js_error (fetched c q fmt shown convert) s
        (fetched-Balanced q fmt shown convert)

  pub call-Balanced {ℓ} :
      {A : Type ℓ} (q : Call) (fmt : String) (shown : List Arg) (made : ℕ → A) (s : Context)
      → Balanced o s
      → Balanced o (call c q fmt shown made s).1
  unfolding call call_js
  call-Balanced q fmt shown made s =
      guarded-Balanced _ (call_js c q fmt shown made) s (ask-Balanced q)

  pub simple-Balanced {ℓ} :
      {A : Type ℓ} (q : Call) (err fmt : String) (shown : List Arg) (made : ℕ → A) (s : Context)
      → Balanced o s
      → Balanced o (simple c q err fmt shown made s).1
  unfolding simple simple_case
  simple-Balanced q err fmt shown made s =
      guarded-Balanced err (simple_case c q err fmt shown made) s (ask-Balanced q)

  found_case-Balanced :
      (fmt : String) (shown : List Arg) (convert : ℕ → Result MsgInfo) (a : Status × ℤ × ℕ)
      (s : Context)
      → Balanced o s
      → Balanced o (found_case fmt shown convert a s).1
  unfolding found_case
  found_case-Balanced fmt shown convert (Status.nats_not_found, jerr, n) s b = b
  found_case-Balanced fmt shown convert a s b =
      fetched_case-Balanced fmt shown (λ n. convert n >>= λ h. ok (some h)) a s b

  pub found-Balanced :
      (q : Call) (fmt : String) (shown : List Arg) (s : Context)
      → Balanced o s
      → Balanced o (found c q fmt shown s).1
  unfolding found
  found-Balanced q fmt shown s b =
      found_case-Balanced fmt shown _ (ask c q s).0 (ask c q s).1 (ask-Balanced q s b)

  configured_case-Balanced :
      (q : Call) (fmt : String) (shown : List Arg) (convert : ℕ → Result InfoHash)
      (arrays : List Array) (r : Result (Unit {0})) (s : Context)
      → taken o s.trace ≡ given o s.trace + owed o arrays
      → Balanced o (configured_case c q fmt shown convert arrays r s).1
  unfolding configured_case
  configured_case-Balanced q fmt shown convert arrays (raise e) s b =
      omega (arith, free_arrays-owed o arrays 0 s (omega (arith, b)))
  configured_case-Balanced q fmt shown convert arrays (ok _) s b =
      let t = (ask c q s).1 in
      fetched_case-Balanced fmt shown convert (ask c q s).0 (free_arrays arrays t) (
        omega (
          arith,
          free_arrays-owed o arrays 0 t
              (omega (arith, called-owed o q (c.answer s.trace q).0 (owed o arrays) s.trace b)),
        ))

  pub configured-Balanced {ℓ} :
      {C : Type ℓ} (d : Configured C) (q : C → Call) (fmt : String) (shown : List Arg)
      (convert : ℕ → Result InfoHash) (s : Context)
      → Balanced o s
      → Balanced o (configured c d q fmt shown convert s).1
  unfolding configured
  configured-Balanced d q fmt shown convert s b =
      configured_case-Balanced (q d.config) fmt shown convert d.arrays d.result
        (log_allocated d.arrays s) (log_allocated-owed o d.arrays s b)
