-- ===== src/ReplyMux/Decimal.antt =====
-- std::to_string of a counter: its decimal digits.
use mathlib.Core.List.{reverse-reverse}
use module_nats.Common.{
  ℕ, zero, suc, ◌+◌, ◌-◌, ◌*◌, ◌/◌, ◌%◌, ◌<◌, ◌≡◌, refl, sym, ap, ◌∙◌, List, [], ◌∷◌, reverse,
  arith, ltb, if◌then◌else◌, Bool-cases, inl, inr,
}

-- The digits from the last on, on fuel.
unfoldable pub digits : ℕ → ℕ → List ℕ
digits zero n = []
digits (suc f) n =
    let rest = digits f (n / 10) in if ltb n 10 then (n + 48) ∷ [] else (n % 10 + 48) ∷ rest

unfoldable pub to_string : ℕ → List ℕ
unfolding digits
to_string n = reverse (digits (suc n) n)

value : List ℕ → ℕ
value [] = 0
value (d ∷ ds) = d - 48 + 10 * value ds

value-digits : (f n : ℕ) → n < f → value (digits f n) ≡ n
unfolding value digits
value-digits zero n h = elim h [ ]
value-digits (suc f) n h = elim (Bool-cases (ltb n 10)) [
  | inl last ↦ rw last (omega arith)
  | inr more ↦ rw more (let ih = value-digits f (n / 10) (ground arith) in omega (arith, ih))
]

-- Different counters have different tokens.
pub to_string-injective : (a b : ℕ) → to_string a ≡ to_string b → a ≡ b
unfolding to_string
to_string-injective a b e =
    let d : digits (suc a) a ≡ digits (suc b) b =
      sym (reverse-reverse (digits (suc a) a))
      ∙ ap reverse e
      ∙ reverse-reverse (digits (suc b) b) in
    sym (value-digits (suc a) a (omega arith)) ∙ ap value d ∙ value-digits (suc b) b (omega arith)

to_string_example : to_string 4057 ≡ 52 ∷ 48 ∷ 53 ∷ 55 ∷ []
unfolding to_string
to_string_example = refl
