-- ===== src/Micro/Handlers/Released.antt =====
-- When the handler contexts are released, and how often.
use module_nats.Common.{
  ℕ, suc, ◌+◌, ◌≤◌, ◌<◌, ◌≡◌, refl, ap, ◌∙◌, true, false, ◌⊎◌, ◌++◌, List, [], ◌∷◌, ◌==◌,
  if◌then◌else◌, count, count-nil, count-cons, count-append, arith, ltb, Bool-cases, inl, inr,
}
use module_nats.Micro.Handlers.{
  State, release_handlers, register_handler, service_done, remove, System, created, handled, Step,
  Reach, later,
}
use module_nats.Micro.Handlers

-- the contexts that are in the state
abbrev in_state : ℕ → State → ℕ
in_state m s = count m s.handlers + count m s.released

release_handlers-released :
    (m : ℕ) (xs : List ℕ) (s : State)
    → count m (release_handlers xs s).released ≡ count m xs + count m s.released
unfolding release_handlers
release_handlers-released m [] s = let a = count-nil m in omega (arith, a)
release_handlers-released m (x ∷ xs) s =
    let a = release_handlers-released m xs (record s { released = x ∷ s.released }) in
    let b = count-cons m x xs in let c = count-cons m x s.released in ground (arith, a, b, c)

release_handlers-same :
    (xs : List ℕ) (s : State)
    → ((release_handlers xs s).handlers ≡ s.handlers) × ((release_handlers xs s).done ≡ s.done)
unfolding release_handlers
release_handlers-same [] s = (refl, refl)
release_handlers-same (x ∷ xs) s = release_handlers-same xs (record s { released = x ∷ s.released })

register_handler-in :
    (m x : ℕ) (s : State) → in_state m (register_handler x s) ≡ count m (x ∷ []) + in_state m s
unfolding register_handler
register_handler-in m x s = elim (Bool-cases s.done) [
  | inl over ↦
      let a = release_handlers-released m (x ∷ []) s in
      let (b, d) = release_handlers-same (x ∷ []) s in
      rw (over, register_handler, b) (omega (arith, a))
  | inr on ↦
      let a = count-append m s.handlers (x ∷ []) in rw (on, register_handler) (omega (arith, a))
]

service_done-in : (m : ℕ) (s : State) → in_state m (service_done s) ≡ in_state m s
unfolding service_done
service_done-in m s =
    let t = record s { handlers = []; done = true } in
    let a = release_handlers-released m s.handlers t in
    let (b, d) = release_handlers-same s.handlers t in
    let n = count-nil m in rw b (omega (arith, a, n))

service_done-empty : (s : State) → (service_done s).handlers ≡ []
unfolding service_done
service_done-empty s =
    (release_handlers-same s.handlers (record s { handlers = []; done = true })).0

count-remove :
    (m x : ℕ) (ys : List ℕ) → 0 < count x ys → count m (remove x ys) + count m (x ∷ []) ≡ count m ys
unfolding remove
count-remove m x [] h = let a = count-nil x in absurd (omega (arith, a, h))
count-remove m x (y ∷ ys) h =
    let a = count-cons m y ys in
    let b = count-cons x y ys in
    let c = count-cons m x [] in
    let n = count-nil m in
    elim (Bool-cases (y == x)) [
      | inl hit ↦ rw hit (ground (arith, a, c, n))
      | inr miss ↦
          let d = count-cons m y (remove x ys) in
          let ih = count-remove m x ys (ground (arith, b)) in rw miss (omega (arith, a, d, ih))
    ]

-- how often a number stands among those below `n`
abbrev below : ℕ → ℕ → ℕ
below m n = if ltb m n then 1 else 0

below-suc : (m n : ℕ) → below m (suc n) ≡ (if n == m then 1 else 0) + below m n
below-suc m n = ground arith

below_le : (m n : ℕ) → below m n ≤ 1
below_le m n = ground arith

-- Each context that was made is in one place; the done handler has run exactly when the endpoints are
-- complete, and then none is registered; until then each endpoint's context is in the hands of its call
-- or registered.
record Inv (s : System) : Type 0 where
  total : (m : ℕ) → count m s.adding + count m s.added + in_state m s.state ≡ below m s.next
  synced : s.state.done ≡ s.completed
  emptied : s.state.done ≡ true → s.state.handlers ≡ []
  held : s.completed ≡ false → (m : ℕ) → count m s.live ≤ count m s.added + count m s.state.handlers
  unused : s.misused ≡ 0

not_released :
    (s : System) (x : ℕ)
    → Inv s
    → s.completed ≡ false
    → 0 < count x s.live
    → count x s.state.released ≡ 0
not_released s x v o h =
    let a = v.total x in
    let b = below_le x s.next in let c = v.held o x in omega (arith, a, b, c, h)

register_handler-emptied :
    (x : ℕ) (s : State)
    → (s.done ≡ true → s.handlers ≡ [])
    → (register_handler x s).done ≡ true
    → (register_handler x s).handlers ≡ []
unfolding register_handler
register_handler-emptied x s v = elim (Bool-cases s.done) [
  | inl over ↦
      let (b, d) = release_handlers-same (x ∷ []) s in rw (over, register_handler) (λ e. b ∙ v over)
  | inr on ↦ rw (on, register_handler) (λ e. cc)
]

register_handler-done : (x : ℕ) (s : State) → (register_handler x s).done ≡ s.done
unfolding register_handler
register_handler-done x s = elim (Bool-cases s.done) [
  | inl over ↦ let (b, d) = release_handlers-same (x ∷ []) s in rw (over, register_handler) refl
  | inr on ↦ rw (on, register_handler) refl
]

register_handler-handlers :
    (x : ℕ) (s : State) → s.done ≡ false → (register_handler x s).handlers ≡ s.handlers ++ x ∷ []
unfolding register_handler
register_handler-handlers x s on = rw (on, register_handler) refl

service_done-done : (s : State) → (service_done s).done ≡ true
unfolding service_done
service_done-done s = (release_handlers-same s.handlers (record s { handlers = []; done = true })).1

handled-unused : (s : System) (x : ℕ) → count x s.state.released ≡ 0 → handled x s ≡ s
handled-unused s x h = rw (h, handled)

Step-Inv : {s t : System} → Step s t → Inv s → Inv t
Step-Inv {s} Handlers.make v = record {
  total = λ m.
      let a = v.total m in
      let b = count-cons m s.next s.adding in let c = below-suc m s.next in omega (arith, a, b, c);
  synced = v.synced;
  emptied = v.emptied;
  held = v.held;
  unused = v.unused;
}
Step-Inv {s} (Handlers.refuse x h) v = record {
  total = λ m.
      let a = v.total m in
      let b = count-remove m x s.adding h in
      let c = count-cons m x s.state.released in
      let d = count-cons m x [] in let n = count-nil m in omega (arith, a, b, c, d, n);
  synced = v.synced;
  emptied = v.emptied;
  held = v.held;
  unused = v.unused;
}
Step-Inv {s} (Handlers.accept x h) v = record {
  total = λ m.
      let a = v.total m in
      let b = count-remove m x s.adding h in
      let c = count-cons m x s.added in
      let d = count-cons m x [] in let n = count-nil m in omega (arith, a, b, c, d, n);
  synced = v.synced;
  emptied = v.emptied;
  held = λ o m.
      let a = v.held o m in
      let b = count-remove m x s.adding h in
      let c = count-cons m x s.added in
      let d = count-cons m x s.live in
      let e = count-cons m x [] in let n = count-nil m in omega (arith, a, c, d);
  unused = v.unused;
}
Step-Inv {s} (Handlers.register x h) v = record {
  total = λ m.
      let a = v.total m in
      let b = count-remove m x s.added h in
      let c = register_handler-in m x s.state in omega (arith, a, b, c);
  synced = register_handler-done x s.state ∙ v.synced;
  emptied = register_handler-emptied x s.state v.emptied;
  held = λ o m.
      let a = v.held o m in
      let b = count-remove m x s.added h in
      let c = ap (count m) (register_handler-handlers x s.state (v.synced ∙ o)) in
      let d = count-append m s.state.handlers (x ∷ []) in omega (arith, a, b, c, d);
  unused = v.unused;
}
Step-Inv {s} (Handlers.request x o h) v = rw (handled-unused s x (not_released s x v o h)) v
Step-Inv {s} (Handlers.complete o) v = record {
  total = λ m. let a = v.total m in let b = service_done-in m s.state in omega (arith, a, b);
  synced = service_done-done s.state;
  emptied = λ _. service_done-empty s.state;
  held = λ e m. absurd (cc);
  unused = v.unused;
}

Reach-Inv : {s : System} → Reach s → Inv s
Reach-Inv Handlers.start = record {
  total = λ m. let n = count-nil m in ground (arith, n);
  synced = refl;
  emptied = λ e. refl;
  held = λ e m. omega arith;
  unused = refl;
}
Reach-Inv (later r st) = Step-Inv st (Reach-Inv r)

pub Reach-synced : {s : System} → Reach s → s.state.done ≡ s.completed
Reach-synced r = let v = Reach-Inv r in v.synced

-- In every interleaving of calls that add endpoints, requests for endpoints that the C client added, and
-- the completion of the endpoints: no request is handled with a deleted context, and no context is
-- deleted twice; and either the endpoints are not complete, or every context that was made is still in
-- the hands of the call that adds its endpoint, or was deleted once.
pub Reach-Released :
    {s : System} (m : ℕ)
    → Reach s
    → (s.misused ≡ 0)
      × (count m s.state.released ≤ 1)
      × ((s.completed ≡ false)
          ⊎ (count m s.adding + count m s.added + count m s.state.released
              ≡ (if ltb m s.next then 1 else 0)))
Reach-Released {s} m r =
    let v = Reach-Inv r in
    let a = v.total m in
    let b = below_le m s.next in
    let n = count-nil m in
    (
      v.unused,
      omega (arith, a, b),
      elim (Bool-cases s.completed) [
        | inr on ↦ inl on
        | inl over ↦
            inr (let z = ap (count m) (v.emptied (v.synced ∙ over)) in omega (arith, a, n, z))
      ],
    )
