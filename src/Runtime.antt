-- ===== src/Runtime.antt =====
-- What src/NatsHelper.cpp (nats_error) and every method share: the status codes of the C client, the
-- exceptions of the Qore exception sink, and a result that is a value or a raised exception.
use module_nats.Common.{ℕ, ℤ, String, List, ◌≡◌, refl, ◌⊎◌, inl, inr}

-- The codes of `natsStatus` that the source names; any other code is `other`.
pub data Status : Type 0 where
  nats_ok nats_err nats_timeout nats_max_delivered_msgs nats_invalid_subscription : Status
  nats_not_found nats_no_server nats_not_permitted nats_no_memory nats_sys_error : Status
  other : ℕ → Status

-- An argument of a format string.
pub data Arg : Type 0 where
  text : String → Arg
  number : ℤ → Arg

-- What stands in the exception sink. The description is kept as its format and arguments, unrendered.
pub data Exception : Type 0 where
  -- `xsink->raiseException(err, fmt, ...)`
  raised : String → String → List Arg → Exception
  -- `nats_error(xsink, err, s, fmt, ...)`: the description, then the text of the status
  failed : String → Status → String → List Arg → Exception
  -- `nats_js_error(xsink, err, s, jerr, fmt, ...)`: the same with the JetStream error code
  js_failed : String → Status → ℤ → String → List Arg → Exception
  -- raised by `qore_check_cancel`
  cancelled : Exception
  -- raised by the sandbox manager for a file or a URL
  denied : String → Exception
  -- raised by a Qore container when the named key is set
  set_failed : String → Exception

pub data Result {ℓ} (A : Type ℓ) : Type ℓ where
  ok : A → Result A
  raise : Exception → Result A

infixl 5 ◌>>=◌ ◌>>◌
abbrev pub ◌>>=◌ {ℓ κ} : {A : Type ℓ} {B : Type κ} → Result A → (A → Result B) → Result B
ok a >>= f = f a
raise e >>= f = raise e

abbrev pub ◌>>◌ {ℓ} : {B : Type ℓ} → Result (Unit {0}) → Result B → Result B
m >> k = m >>= λ _. k

-- The value that stands for a method's `int` return code 0.
abbrev pub done : Result (Unit {0})
done = ok tt

-- `if (s != NATS_OK) { nats_error(...); return -1; } return a;`
unfoldable pub or_failed {ℓ} : {A : Type ℓ} → Status → String → String → List Arg → A → Result A
or_failed Status.nats_ok err fmt args a = ok a
or_failed s err fmt args a = raise (failed err s fmt args)

-- A value is returned exactly when the status is NATS_OK.
pub or_failed-cases {ℓ} :
    {A : Type ℓ} (s : Status) (err fmt : String) (args : List Arg) (a : A)
    → ((s ≡ Status.nats_ok) × (or_failed s err fmt args a ≡ ok a))
      ⊎ ((s ≡ Status.nats_ok → ⊥) × (or_failed s err fmt args a ≡ raise (failed err s fmt args)))
unfolding or_failed
or_failed-cases Status.nats_ok err fmt args a = inl (refl, refl)
or_failed-cases s err fmt args a = inr ((λ e. cc), refl)

-- A chain that returned had a first result, from which the rest returned.
pub >>=-ok {ℓ κ} :
    {A : Type ℓ} {B : Type κ} (r : Result A) (f : A → Result B) (b : B)
    → r >>= f ≡ ok b
    → (a : A) × (r ≡ ok a) × (f a ≡ ok b)
>>=-ok (ok a) f b e = (a, refl, e)
>>=-ok (raise x) f b e = absurd (cc)
