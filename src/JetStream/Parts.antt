-- ===== src/JetStream/Parts.antt =====
-- How src/QoreNatsJetStream.cpp reads the fields and arrays of a configuration from a hash. Times are
-- in milliseconds in the hashes and in nanoseconds in the C structures.
use module_nats.Common.{ℕ, ℤ, pos, String, Bool, List, [], ◌∷◌, length, if◌then◌else◌}
use module_nats.Common.Int.{times, int32}
use module_nats.Value.{Value, Values, nil, cons}
use module_nats.Runtime.{number, Result, raise, raised}

-- `if (v.getType() == NT_INT) x = v.getAsBigInt() * 1000000LL;`, within the range of an int64
abbrev pub millis_or : Value → ℤ → ℤ
millis_or (Value.int n) d = times n 1000000
millis_or _ d = d

-- `if (v.getType() == NT_INT) x = (int)v.getAsBigInt();`
abbrev pub int32_or : Value → ℤ → ℤ
int32_or (Value.int n) d = int32 n
int32_or _ d = d

-- an entry of "back_off": `bv.getType() == NT_INT ? bv.getAsBigInt() * 1000000LL : 0`
abbrev pub nanos_of : Value → ℤ
nanos_of (Value.int n) = times n 1000000
nanos_of _ = pos 0

abbrev pub nanos : Values → List ℤ
nanos nil = []
nanos (cons v vs) = nanos_of v ∷ nanos vs

-- `if (v.getType() == NT_LIST)`
abbrev pub or_list {ℓ} : {A : Type ℓ} → (Values → A) → A → Value → A
or_list f d (Value.list vs) = f vs
or_list f d _ = d

-- The arrays that the configurations hold on the heap.
pub data Array : Type 0 where
  subjects_array back_off_array filter_array : Array

-- What becomes of an array: the hash has none, it was allocated and filled, or malloc failed for so
-- many elements.
pub data Allocation {ℓ} (A : Type ℓ) : Type ℓ where
  unasked : Allocation A
  filled : List A → Allocation A
  refused : ℕ → Allocation A

unfoldable pub allocate {ℓ} : {A : Type ℓ} → (ℕ → Bool) → List A → Allocation A
allocate malloc xs = if malloc (length xs) then filled xs else refused (length xs)

-- `if (len > 0) { malloc ... }`
unfoldable pub allocate_some {ℓ} : {A : Type ℓ} → (ℕ → Bool) → List A → Allocation A
unfolding allocate
allocate_some malloc [] = unasked
allocate_some malloc (x ∷ xs) = allocate malloc (x ∷ xs)

-- What configureStreamConfig and configureConsumerConfig leave: the return code, the configuration,
-- and the arrays that were allocated.
pub record Configured {ℓ} (C : Type ℓ) : Type ℓ where
  pub result : Result (Unit {0})
  pub config : C
  pub arrays : List Array

abbrev pub no_memory : String → ℕ → Result (Unit {0})
no_memory fmt n = raise (raised "NATS-JETSTREAM-ERROR" fmt (number (pos n) ∷ []))
