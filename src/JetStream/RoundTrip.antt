-- ===== src/JetStream/RoundTrip.antt =====
-- The configuration of a stream that went into a hash, read from that hash again
-- (src/QoreNatsJetStream.cpp).
use module_nats.Common.{
  ℕ, ℤ, String, ◌≡◌, refl, ap, sym, subst, ◌∙◌, Bool, true, Option, none, some, List, [], ◌∷◌,
  if◌then◌else◌, length,
}
use module_nats.Common.Int.{times, quot, quot-times, int32-fits, Fits32}
use module_nats.Value.{texts, Value, strings, or_string}
use module_nats.Runtime.{Result, ok, done, >>=-ok}
use module_nats.Message.{Refuses, set_key}
use module_nats.Hash.{
  Hash, Write, empty, or_value, write, write_all, new_hash, written, new_hash-ok, string_value,
  strings_value,
}
use module_nats.JetStream.Parts.{millis_or, or_list, Allocation, unasked, filled, refused, allocate}
use module_nats.JetStream.Stream.{
  StreamConfig, StreamInfo, InfoHash, stream_fields, stream_case, configure_stream_config,
  stream_config_writes, stream_state_writes, optional_writes, info_to_hash, stream_info_to_hash,
}

ok-injective : (a b : InfoHash) → Result.ok a ≡ ok b → a ≡ b
ok-injective a b e = cc

-- A hash of an information holds all the writes of the configuration.
pub info_to_hash-config :
    (refuses : Refuses) (k l : String) (ws vs : List Write) (g : InfoHash)
    → info_to_hash refuses k l ws vs ≡ ok g
    → g.config ≡ written ws empty
unfolding info_to_hash set_key
info_to_hash-config refuses k l ws vs g e =
    let (h, _, e) = >>=-ok (set_key refuses k empty) _ g e in
    let (cfg, made, e) = >>=-ok (new_hash refuses l ws) _ g e in
    let (h', _, e) = >>=-ok (set_key refuses "config" h) _ g e in
    let (h'', _, e) = >>=-ok (write_all refuses vs h') _ g e in
    ap (λ x. x.config) (sym (ok-injective _ g e)) ∙ new_hash-ok refuses l ws cfg made

-- A time in nanoseconds that is a whole number of milliseconds.
abbrev pub Millis : ℤ → Type 0
Millis n = (a : ℤ) × (n ≡ times a 1000000)

pub time_back : (n d : ℤ) → Millis n → millis_or (Value.int (quot n 1000000)) d ≡ n
time_back n d (a, e) =
    ap (λ x. times (quot x 1000000) 1000000) e ∙ ap (λ x. times x 1000000) (quot-times a) ∙ sym e

pub string_back : (s : Option String) → or_string (or_value (string_value s) Value.nothing) none ≡ s
string_back none = refl
string_back (some s) = refl

-- What jsStreamConfig_Init leaves null.
abbrev pub IsFresh : StreamConfig → Type 0
IsFresh d = (d.name ≡ none) × (d.description ≡ none) × (d.subjects ≡ none)

-- The values that the hash keeps: whole milliseconds, numbers that fit the C types, and subjects that
-- are no empty array.
abbrev pub Keeps : StreamConfig → Type 0
Keeps c =
    Millis c.max_age
    × Millis c.duplicates
    × Fits32 c.max_msg_size
    × Fits32 c.replicas
    × (c.subjects ≡ some [] → ⊥)

module _ (d c : StreamConfig) (fresh : IsFresh d) (keeps : Keeps c) where
  stream_fields_back : stream_fields (written (stream_config_writes c) empty) c.subjects d ≡ c
  unfolding stream_fields written write stream_config_writes
  stream_fields_back = λ i. record c {
    name =
        (ap (or_string (or_value (string_value c.name) Value.nothing)) fresh.0 ∙ string_back c.name)
          i;
    description =
        (ap (or_string (or_value (string_value c.description) Value.nothing)) fresh.1
            ∙ string_back c.description)
          i;
    max_age = time_back c.max_age d.max_age keeps.0 i;
    duplicates = time_back c.duplicates d.duplicates keeps.1 i;
    max_msg_size = int32-fits c.max_msg_size keeps.2 i;
    replicas = int32-fits c.replicas keeps.3 i;
  }

texts-strings : (ss : List String) → texts (strings ss) ≡ ss
texts-strings [] = refl
texts-strings (s ∷ ss) = ap (λ rest. s ∷ rest) (texts-strings ss)

-- What becomes of the subjects of a hash that was made from some.
abbrev taken_back : Option (List String) → Allocation String
taken_back none = unasked
taken_back (some ss) = filled ss

subjects_back :
    (malloc : ℕ → Bool) (ss : Option (List String))
    → ((n : ℕ) → malloc n ≡ true)
    → (ss ≡ some [] → ⊥)
    → or_list (λ vs. allocate malloc (texts vs)) unasked (or_value (strings_value ss) Value.nothing)
      ≡ taken_back ss
unfolding allocate
subjects_back malloc none room full = refl
subjects_back malloc (some []) room full = absurd (full refl)
subjects_back malloc (some (s ∷ ss)) room full =
    let len = length (s ∷ texts (strings ss)) in
    ap (λ b. if b then filled (s ∷ texts (strings ss)) else refused len) (room len)
    ∙ ap (λ rest. filled (s ∷ rest)) (texts-strings ss)

stream_case_back :
    (h : Hash) (d : StreamConfig) (ss : Option (List String))
    → d.subjects ≡ none
    → ((stream_case h d (taken_back ss)).result ≡ done)
      × ((stream_case h d (taken_back ss)).config ≡ stream_fields h ss d)
unfolding stream_case
stream_case_back h d none e = (refl, ap (λ ss. stream_fields h ss d) e)
stream_case_back h d (some ss) e = (refl, refl)

configure_back :
    (malloc : ℕ → Bool) (d c : StreamConfig)
    → ((n : ℕ) → malloc n ≡ true)
    → IsFresh d
    → Keeps c
    → let x = configure_stream_config malloc d (written (stream_config_writes c) empty) in
      (x.result ≡ done) × (x.config ≡ c)
unfolding configure_stream_config written write stream_config_writes
configure_back malloc d c room fresh keeps =
    let h = written (stream_config_writes c) empty in
    let a = subjects_back malloc c.subjects room keeps.4 in
    let (fine, same) = stream_case_back h d c.subjects fresh.2 in
    (
      ap (λ x. (stream_case h d x).result) a ∙ fine,
      ap (λ x. (stream_case h d x).config) a ∙ same ∙ stream_fields_back d c fresh keeps,
    )

-- A stream's information that became a hash gives its configuration back: configureStreamConfig
-- succeeds on the sub-hash "config" of that hash and yields the configuration that the information
-- had. Conditions: jsStreamConfig_Init leaves name, description and subjects null; malloc succeeds;
-- max_age and duplicates are whole milliseconds, max_msg_size and replicas fit 32 bits, and subjects
-- are not an array without elements.
pub configure_stream_config-stream_info_to_hash :
    (malloc : ℕ → Bool) (refuses : Refuses) (d c : StreamConfig) (i : StreamInfo) (g : InfoHash)
    → ((n : ℕ) → malloc n ≡ true)
    → IsFresh d
    → Keeps c
    → i.config ≡ some c
    → stream_info_to_hash refuses i ≡ ok g
    → ((configure_stream_config malloc d g.config).result ≡ done)
      × ((configure_stream_config malloc d g.config).config ≡ c)
unfolding configure_stream_config stream_info_to_hash optional_writes
configure_stream_config-stream_info_to_hash malloc refuses d c i g room fresh keeps has e =
    let w =
      info_to_hash-config refuses _ _ _ (stream_state_writes i) g e
      ∙ ap (λ o. written (optional_writes stream_config_writes o) empty) has in
    subst (λ k. let x = configure_stream_config malloc d k in (x.result ≡ done) × (x.config ≡ c))
      (sym w) (configure_back malloc d c room fresh keeps)
