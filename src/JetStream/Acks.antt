-- ===== src/JetStream/Acks.antt =====
-- The two conversions of an acknowledgement: that of publish, which goes on behind an exception, and
-- that of publishWithOptions, which stops (src/QoreNatsJetStream.cpp).
use module_nats.Common.{
  ◌≡◌, ◌≢◌, refl, ap, ◌↔◌, Bool-cases, inl, inr, none, some, List, [], ◌∷◌, arith, if◌then◌else◌,
}
use module_nats.Common.Int.{int64}
use module_nats.Value.{Value, or_string}
use module_nats.Runtime.{Exception, set_failed, ok}
use module_nats.Message.{Refuses, set_key}
use module_nats.Hash.{Hash, Write, empty, write, write_all, new_hash}
use module_nats.JetStream.Client.{PubAck}
use module_nats.JetStream.Publish.{set_each, pub_ack_writes, pub_ack_each}

-- A list of writes, each in the way of publish.
each_of : Refuses → List Write → Hash × List Exception → Hash × List Exception
unfolding set_each
each_of refuses [] s = s
each_of refuses ((k, v) ∷ ws) s = each_of refuses ws (set_each refuses k v s)

-- An exception stays in the sink.
each_of-pending :
    (refuses : Refuses) (ws : List Write) (g h : Hash) (e : Exception) (es : List Exception)
    → each_of refuses ws (g, e ∷ es) ≢ (h, [])
unfolding each_of set_each
each_of-pending refuses [] g h e es p = ground arith
each_of-pending refuses ((k, none) ∷ ws) g h e es p = each_of-pending refuses ws g h e es p
each_of-pending refuses ((k, some v) ∷ ws) g h e es p = elim (Bool-cases (refuses k)) [
  | inl out ↦ each_of-pending refuses ws g h (set_failed k) (e ∷ es) (ground arith)
  | inr good ↦ each_of-pending refuses ws (write k (some v) g) h e es (ground arith)
]

each-all :
    (refuses : Refuses) (ws : List Write) (g h : Hash)
    → write_all refuses ws g ≡ ok h
    → each_of refuses ws (g, []) ≡ (h, [])
unfolding each_of set_each write_all set_key
each-all refuses [] g h e = ground arith
each-all refuses ((k, none) ∷ ws) g h e = each-all refuses ws g h e
each-all refuses ((k, some v) ∷ ws) g h e = elim (Bool-cases (refuses k)) [
  | inl out ↦ ground arith
  | inr good ↦ ground (arith, each-all refuses ws (write k (some v) g) h)
]

all-each :
    (refuses : Refuses) (ws : List Write) (g h : Hash)
    → each_of refuses ws (g, []) ≡ (h, [])
    → write_all refuses ws g ≡ ok h
unfolding each_of set_each write_all set_key
all-each refuses [] g h e = ap (λ x. ok x.0) e
all-each refuses ((k, none) ∷ ws) g h e = all-each refuses ws g h e
all-each refuses ((k, some v) ∷ ws) g h e = elim (Bool-cases (refuses k)) [
  | inl out ↦ absurd (each_of-pending refuses ws g h (set_failed k) [] (ground arith))
  | inr good ↦ ground (arith, all-each refuses ws (write k (some v) g) h)
]

-- The hash says what the acknowledgement does.
abbrev pub Says : PubAck → Hash → Type 0
Says a h =
    (or_string (h "stream") none ≡ a.stream)
    × (h "sequence" ≡ Value.int (int64 a.sequence))
    × (h "duplicate" ≡ Value.bool a.duplicate)

-- the conversion of publish, as a list of writes
as_list :
    (refuses : Refuses) (a : PubAck)
    → pub_ack_each refuses a
      ≡ each_of refuses
          (pub_ack_writes a)
          (empty, (if refuses "NatsPubAck" then set_failed "NatsPubAck" ∷ [] else []))
unfolding pub_ack_each each_of pub_ack_writes
as_list refuses a = refl

same :
    (refuses : Refuses) (a : PubAck) (h : Hash)
    → (new_hash refuses "NatsPubAck" (pub_ack_writes a) ≡ ok h) ↔ (pub_ack_each refuses a ≡ (h, []))
unfolding new_hash set_key
same refuses a h = rw (as_list refuses a) (
    let there = each-all refuses (pub_ack_writes a) empty h in
    let back = all-each refuses (pub_ack_writes a) empty h in
    let never = each_of-pending refuses (pub_ack_writes a) empty h in
    elim (Bool-cases (refuses "NatsPubAck")) [
      | inl out ↦ (
        ground (arith, there),
        (λ p. absurd (never (set_failed "NatsPubAck") [] (ground (arith, p)))),
      )
      | inr good ↦ (ground (arith, there), ground (arith, back))
    ])
