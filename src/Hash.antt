-- ===== src/Hash.antt =====
-- Qore hashes as the conversions of src/*.cpp write and read them: a hash is what getKeyValue answers
-- for each key. The order of the keys plays no part.
use module_nats.Common.{
  ℤ, String, ◌≡◌, refl, ap, sym, ◌∙◌, map, Bool, true, false, Bool-cases, inl, inr, Option, none,
  some, List, [], ◌∷◌, arith, if◌then◌else◌,
}
use module_nats.Common.Int.{quot}
use module_nats.Value.{Value, strings}
use module_nats.Runtime.{Result, ok, ◌>>=◌}
use module_nats.Message.{Refuses, set_key}
use text.Mathlib.Text.{◌==◌}

abbrev pub Hash : Type 0
Hash = String → Value

-- A new hash.
abbrev pub empty : Hash
empty k = Value.nothing

-- What a key becomes: the value that is written, or what it was where nothing is.
abbrev pub or_value : Option Value → Value → Value
or_value none old = old
or_value (some v) old = v

unfoldable pub write : String → Option Value → Hash → Hash
write k v h j = if k == j then or_value v (h j) else h j

-- A key with the value that is written to it, or none where the source's pointer is null.
abbrev pub Write : Type 0
Write = String × Option Value

-- `if (x) h->setKeyValue(key, new QoreStringNode(x), xsink);`
abbrev pub string_value : Option String → Option Value
string_value none = none
string_value (some s) = some (Value.str s)

abbrev pub string_write : String → Option String → Write
string_write k s = (k, string_value s)

abbrev pub int_write : String → ℤ → Write
int_write k n = (k, some (Value.int n))

abbrev pub millis_write : String → ℤ → Write
millis_write k n = (k, some (Value.int (quot n 1000000)))

abbrev pub bool_write : String → Bool → Write
bool_write k b = (k, some (Value.bool b))

-- `if (len > 0 && x)`, and the list of its strings
abbrev pub strings_value : Option (List String) → Option Value
strings_value (some (s ∷ ss)) = some (Value.list (strings (s ∷ ss)))
strings_value _ = none

abbrev pub strings_write : String → Option (List String) → Write
strings_write k ss = (k, strings_value ss)

-- `if (!*xsink) { h->setKeyValue(key, value, xsink); }` for each of the writes, in order
unfoldable pub write_all : Refuses → List Write → Hash → Result Hash
unfolding write set_key
write_all refuses [] h = ok h
write_all refuses ((k, none) ∷ ws) h = write_all refuses ws h
write_all refuses ((k, some v) ∷ ws) h =
    set_key refuses k (write k (some v) h) >>= λ g. write_all refuses ws g

-- a new hash of a declared type, and the writes
unfoldable pub new_hash : Refuses → String → List Write → Result Hash
unfolding write_all set_key
new_hash refuses name ws = set_key refuses name empty >>= λ h. write_all refuses ws h

-- The loops over a list, which end at the first exception. A push to the result is refused under the
-- name "push".
unfoldable pub all_pushed {ℓ κ} :
    {A : Type ℓ} {B : Type κ} → Refuses → (A → Result B) → List A → Result (List B)
unfolding set_key
all_pushed refuses convert [] = ok []
all_pushed refuses convert (a ∷ rest) = convert a >>= λ b.
    set_key refuses "push" b >>= λ b. all_pushed refuses convert rest >>= λ bs. ok (b ∷ bs)

-- The hash with all of the writes.
unfoldable pub written : List Write → Hash → Hash
unfolding write
written [] h = h
written ((k, v) ∷ ws) h = written ws (write k v h)

either_way : (b : Bool) (v : Value) → (if b then v else v) ≡ v
either_way true v = refl
either_way false v = refl

write-none : (k : String) (h : Hash) → write k none h ≡ h
unfolding write
write-none k h = λ i j. either_way (k == j) (h j) i

-- A conversion that is not refused has made all of its writes.
pub write_all-ok :
    (refuses : Refuses) (ws : List Write) (h g : Hash)
    → write_all refuses ws h ≡ ok g
    → g ≡ written ws h
unfolding write_all written set_key
write_all-ok refuses [] h g e = ground arith
write_all-ok refuses ((k, none) ∷ ws) h g e =
    write_all-ok refuses ws h g e ∙ ap (written ws) (sym (write-none k h))
write_all-ok refuses ((k, some v) ∷ ws) h g e = elim (Bool-cases (refuses k)) [
  | inl out ↦ ground arith
  | inr good ↦ write_all-ok refuses ws (write k (some v) h) g (ground arith)
]

-- A new hash that is not refused has all of its writes.
pub new_hash-ok :
    (refuses : Refuses) (name : String) (ws : List Write) (g : Hash)
    → new_hash refuses name ws ≡ ok g
    → g ≡ written ws empty
unfolding new_hash set_key
new_hash-ok refuses name ws g e = elim (Bool-cases (refuses name)) [
  | inl on ↦ ground arith
  | inr off ↦ write_all-ok refuses ws empty g (ground arith)
]

-- Nothing is refused.
abbrev pub Agrees : Refuses → Type 0
Agrees refuses = (k : String) → refuses k ≡ false

pub set_key-agreed {ℓ} :
    {H : Type ℓ} (refuses : Refuses) (k : String) (h : H)
    → Agrees refuses
    → set_key refuses k h ≡ ok h
unfolding set_key
set_key-agreed refuses k h all = rw (all k) refl

pub write_all-agreed :
    (refuses : Refuses) (ws : List Write) (h : Hash)
    → Agrees refuses
    → write_all refuses ws h ≡ ok (written ws h)
unfolding write_all written
write_all-agreed refuses [] h all = refl
write_all-agreed refuses ((k, none) ∷ ws) h all =
    write_all-agreed refuses ws h all ∙ ap (λ g. ok (written ws g)) (sym (write-none k h))
write_all-agreed refuses ((k, some v) ∷ ws) h all =
    ap (λ r. r >>= λ g. write_all refuses ws g) (set_key-agreed refuses k (write k (some v) h) all)
    ∙ write_all-agreed refuses ws (write k (some v) h) all

pub new_hash-agreed :
    (refuses : Refuses) (name : String) (ws : List Write)
    → Agrees refuses
    → new_hash refuses name ws ≡ ok (written ws empty)
unfolding new_hash
new_hash-agreed refuses name ws all =
    ap (λ r. r >>= λ h. write_all refuses ws h) (set_key-agreed refuses name empty all)
    ∙ write_all-agreed refuses ws empty all

pub all_pushed-agreed {ℓ κ} :
    {A : Type ℓ} {B : Type κ} (refuses : Refuses) (convert : A → Result B) (f : A → B)
    → Agrees refuses
    → ((a : A) → convert a ≡ ok (f a))
    → (xs : List A) → all_pushed refuses convert xs ≡ ok (map f xs)
unfolding all_pushed
all_pushed-agreed refuses convert f all made [] = refl
all_pushed-agreed refuses convert f all made (a ∷ rest) =
    ap
      (λ r. r >>= λ b.
        set_key refuses "push" b >>= λ b. all_pushed refuses convert rest >>= λ bs. ok (b ∷ bs))
      (made a)
    ∙ ap (λ r. r >>= λ b. all_pushed refuses convert rest >>= λ bs. ok (b ∷ bs))
        (set_key-agreed refuses "push" (f a) all)
    ∙ ap (λ r. r >>= λ bs. ok (f a ∷ bs)) (all_pushed-agreed refuses convert f all made rest)
