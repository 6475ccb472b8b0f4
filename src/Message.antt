-- ===== src/Message.antt =====
-- src/NatsHelper.cpp, nats_msg_to_hash: a message of the C client as a Qore hash.
use module_nats.Common.{ℕ, String, Bool, Option, none, some, List, [], ◌∷◌, if◌then◌else◌}
use module_nats.Runtime.{Status, Result, ok, raise, set_failed, ◌>>=◌}
use text.Mathlib.Text.{◌==◌}

-- What the C client answers about one message. A header key comes with what natsMsgHeader_Get finds.
pub record Content : Type 0 where
  pub subject : Option String
  pub payload : Option (List ℕ)
  pub reply : Option String
  pub keys_status : Status
  pub header_keys : List (String × Option String)

-- `hash<NatsMsgInfo>`; a key that is not set is `none`.
pub record MsgInfo : Type 0 where
  pub subject : Option String
  pub payload : Option (List ℕ)
  pub reply : Option String
  pub headers : Option (List (String × String))

abbrev pub empty_info : MsgInfo
empty_info = record { subject = none; payload = none; reply = none; headers = none }

-- Whether a Qore container refuses a key; the argument of the functions below.
abbrev pub Refuses : Type 0
Refuses = String → Bool

-- `h->setKeyValue(key, ...); if (*xsink) return nullptr;`, with `h` the hash after the write
unfoldable pub set_key {ℓ} : {H : Type ℓ} → Refuses → String → H → Result H
set_key refuses key h = if refuses key then raise (set_failed key) else ok h

-- the same for a value that may be a null pointer
unfoldable pub set_some {ℓ κ} :
    {H : Type ℓ} {V : Type κ} → Refuses → String → Option V → (V → H) → H → Result H
unfolding set_key
set_some refuses key none write h = ok h
set_some refuses key (some v) write h = set_key refuses key (write v)

-- A key of a hash is written over, or added at the end.
unfoldable pub put : String → String → List (String × String) → List (String × String)
put k v [] = (k, v) ∷ []
put k v ((j, w) ∷ h) = if j == k then (k, v) ∷ h else (j, w) ∷ put k v h

-- the loop over the header keys
unfoldable pub set_headers :
    Refuses
    → List (String × Option String)
    → List (String × String)
    → Result (List (String × String))
unfolding put set_key
set_headers refuses [] h = ok h
set_headers refuses ((k, none) ∷ ks) h = set_headers refuses ks h
set_headers refuses ((k, some v) ∷ ks) h =
    set_key refuses k (put k v h) >>= λ h'. set_headers refuses ks h'

-- `data && data_len > 0`
unfoldable pub non_empty : Option (List ℕ) → Option (List ℕ)
non_empty (some (b ∷ bs)) = some (b ∷ bs)
non_empty _ = none

-- `if (s == NATS_OK && keys && num_keys > 0) { ... }`
unfoldable pub add_headers :
    Refuses → Status → List (String × Option String) → MsgInfo → Result MsgInfo
unfolding set_headers set_key
add_headers refuses Status.nats_ok [] h = ok h
add_headers refuses Status.nats_ok (k ∷ ks) h = do
  headers ← set_headers refuses (k ∷ ks) []
  set_key refuses "headers" (record h { headers = some headers })
add_headers refuses s ks h = ok h

unfoldable pub nats_msg_to_hash : Refuses → Content → Result MsgInfo
unfolding set_some set_key non_empty add_headers
nats_msg_to_hash refuses c = do
  h ← set_key refuses "NatsMsgInfo" empty_info
  h ← set_some refuses "subject" c.subject (λ v. record h { subject = some v }) h
  h ← set_some refuses "data" (non_empty c.payload) (λ v. record h { payload = some v }) h
  h ← set_some refuses "reply" c.reply (λ v. record h { reply = some v }) h
  add_headers refuses c.keys_status c.header_keys h
