-- ===== src/ReplyMux/SlotMap.antt =====
-- std::map<std::string, natsMsg*>: a slot for each key, with a message or a null pointer.
use module_nats.Common.{
  ℕ, ◌+◌, ◌≡◌, refl, sym, ap, subst, Bool, true, false, ◌&&◌, Option, none, some, List, [], ◌∷◌,
  ◌==◌, arith, if◌then◌else◌, ==_self, Bool-cases, inl, inr,
}

abbrev pub Slots : Type 0
Slots = List (List ℕ × Option ℕ)

-- Equality of texts.
unfoldable pub same : List ℕ → List ℕ → Bool
same [] [] = true
same [] (d ∷ ds) = false
same (c ∷ cs) [] = false
same (c ∷ cs) (d ∷ ds) = c == d && same cs ds

pub same_self : (s : List ℕ) → same s s ≡ true
unfolding same
same_self [] = refl
same_self (c ∷ cs) = rw (==_self c) (same_self cs)

pub same→eq : (s t : List ℕ) → same s t ≡ true → s ≡ t
unfolding same
same→eq [] [] h = refl
same→eq [] (d ∷ ds) h = cc
same→eq (c ∷ cs) [] h = cc
same→eq (c ∷ cs) (d ∷ ds) h = ground (arith, same→eq cs ds)

unfoldable pub find : List ℕ → Slots → Option (Option ℕ)
unfolding same
find k [] = none
find k ((j, v) ∷ s) = if same j k then some v else find k s

-- `s[k] = v`
unfoldable pub put : List ℕ → Option ℕ → Slots → Slots
unfolding same
put k v [] = (k, v) ∷ []
put k v ((j, w) ∷ s) = if same j k then (j, v) ∷ s else (j, w) ∷ put k v s

unfoldable pub erase : List ℕ → Slots → Slots
unfolding same
erase k [] = []
erase k ((j, w) ∷ s) = if same j k then s else (j, w) ∷ erase k s

abbrev pub one_if : Bool → ℕ
one_if true = 1
one_if false = 0

abbrev pub held : ℕ → Option ℕ → ℕ
held m none = 0
held m (some k) = one_if (k == m)

-- How often a message stands in the slots.
unfoldable pub stored : ℕ → Slots → ℕ
stored m [] = 0
stored m ((j, v) ∷ s) = held m v + stored m s

pub keys : Slots → List (List ℕ)
keys [] = []
keys ((j, v) ∷ s) = j ∷ keys s

-- A write to a slot replaces what the slot holds.
pub stored-put :
    (m : ℕ) (k : List ℕ) (v w : Option ℕ) (s : Slots)
    → find k s ≡ some w
    → stored m (put k v s) + held m w ≡ stored m s + held m v
unfolding find put stored
stored-put m k v w [] h = cc
stored-put m k v w ((j, u) ∷ s) h = ground (arith, stored-put m k v w s)

pub stored-put_new :
    (m : ℕ) (k : List ℕ) (v : Option ℕ) (s : Slots)
    → find k s ≡ none
    → stored m (put k v s) ≡ stored m s + held m v
unfolding find put stored
stored-put_new m k v [] h = omega arith
stored-put_new m k v ((j, u) ∷ s) h = ground (arith, stored-put_new m k v s)

pub stored-erase :
    (m : ℕ) (k : List ℕ) (w : Option ℕ) (s : Slots)
    → find k s ≡ some w
    → stored m (erase k s) + held m w ≡ stored m s
unfolding find erase stored
stored-erase m k w [] h = cc
stored-erase m k w ((j, u) ∷ s) h = ground (arith, stored-erase m k w s)

pub keys-put :
    (k : List ℕ) (v w : Option ℕ) (s : Slots) → find k s ≡ some w → keys (put k v s) ≡ keys s
unfolding find put keys
keys-put k v w [] h = cc
keys-put k v w ((j, u) ∷ s) h = ground (arith, keys-put k v w s)

-- Two lists with the same keys have them in the same places.
pub keys-put_both :
    (k : List ℕ) (v w : Option ℕ) (s t : Slots)
    → keys s ≡ keys t
    → keys (put k v s) ≡ keys (put k w t)
unfolding put keys
keys-put_both k v w [] [] h = refl
keys-put_both k v w [] ((i, x) ∷ t) h = cc
keys-put_both k v w ((j, u) ∷ s) [] h = cc
keys-put_both k v w ((j, u) ∷ s) ((i, x) ∷ t) h = ground (arith, keys-put_both k v w s t)

pub keys-erase : (k : List ℕ) (s t : Slots) → keys s ≡ keys t → keys (erase k s) ≡ keys (erase k t)
unfolding erase keys
keys-erase k [] [] h = refl
keys-erase k [] ((i, x) ∷ t) h = cc
keys-erase k ((j, u) ∷ s) [] h = cc
keys-erase k ((j, u) ∷ s) ((i, x) ∷ t) h = ground (arith, keys-erase k s t)

pub find-keys : (k : List ℕ) (s t : Slots) → keys s ≡ keys t → find k s ≡ none → find k t ≡ none
unfolding find keys
find-keys k [] [] h e = refl
find-keys k [] ((i, x) ∷ t) h e = cc
find-keys k ((j, u) ∷ s) [] h e = cc
find-keys k ((j, u) ∷ s) ((i, x) ∷ t) h e = ground (arith, find-keys k s t)

pub find-put_other :
    (k j : List ℕ) (v : Option ℕ) (s : Slots)
    → same j k ≡ false
    → find k s ≡ none
    → find k (put j v s) ≡ none
unfolding find put
find-put_other k j v [] d e = rw d
find-put_other k j v ((i, u) ∷ s) d e = elim (Bool-cases (same i k)) [
  | inl hit ↦ cc
  | inr miss ↦ elim (Bool-cases (same i j)) [
    | inl at ↦ rw (at, find, miss) (ground arith)
    | inr past ↦ rw (past, find, miss) (find-put_other k j v s d (ground arith))
  ]
]

pub find-erase : (k j : List ℕ) (s : Slots) → find k s ≡ none → find k (erase j s) ≡ none
unfolding find erase
find-erase k j [] e = refl
find-erase k j ((i, u) ∷ s) e = elim (Bool-cases (same i k)) [
  | inl hit ↦ cc
  | inr miss ↦ elim (Bool-cases (same i j)) [
    | inl at ↦ rw at (ground arith)
    | inr past ↦ rw (past, find, miss) (find-erase k j s (ground arith))
  ]
]

-- A key that is not there is not removed.
pub erase-none : (k : List ℕ) (s : Slots) → find k s ≡ none → erase k s ≡ s
unfolding find erase
erase-none k [] e = refl
erase-none k ((j, u) ∷ s) e = ground (arith, erase-none k s)

pub stored-nil : (m : ℕ) → stored m [] ≡ 0
unfolding stored
stored-nil m = refl

pub keys-of_nil : keys [] ≡ []
unfolding keys
keys-of_nil = refl

pub keys-nil : (s : Slots) → keys s ≡ [] → s ≡ []
unfolding keys
keys-nil [] h = refl
keys-nil ((j, u) ∷ s) h = cc

-- What a write and a removal do to the slot of each key.
pub find-put_same : (k : List ℕ) (v : Option ℕ) (s : Slots) → find k (put k v s) ≡ some v
unfolding find put
find-put_same k v [] = rw (same_self k)
find-put_same k v ((j, u) ∷ s) = ground (arith, find-put_same k v s)

pub find-put_miss :
    (k j : List ℕ) (v : Option ℕ) (s : Slots) → same j k ≡ false → find k (put j v s) ≡ find k s
unfolding find put
find-put_miss k j v [] d = rw d
find-put_miss k j v ((i, u) ∷ s) d = elim (Bool-cases (same i j)) [
  | inl at ↦ rw (at, find) (rw (subst (λ x. same x k ≡ false) (sym (same→eq i j at)) d) refl)
  | inr past ↦ rw (past, find) (ap (λ x. if same i k then some u else x) (find-put_miss k j v s d))
]

pub find-erase_miss : (k j : List ℕ) (s : Slots) → same j k ≡ false → find k (erase j s) ≡ find k s
unfolding find erase
find-erase_miss k j [] d = refl
find-erase_miss k j ((i, u) ∷ s) d = elim (Bool-cases (same i j)) [
  | inl at ↦ rw (at, find) (rw (subst (λ x. same x k ≡ false) (sym (same→eq i j at)) d) refl)
  | inr past ↦ rw (past, find) (ap (λ x. if same i k then some u else x) (find-erase_miss k j s d))
]
