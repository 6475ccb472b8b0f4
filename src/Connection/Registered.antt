-- ===== src/Connection/Registered.antt =====
-- What QoreNatsConnection::setupCallbacks (src/QoreNatsConnection.cpp) leaves: the closures that the
-- context holds and the callbacks that the C client knows.
mod Tests
use module_nats.Common.{
  ℕ, String, ◌≡◌, refl, sym, ap, subst, ◌∙◌, Bool, true, false, Bool-cases, ◌⊎◌, inl, inr, Option,
  none, some, List, [], ◌∷◌, All, All_map, if◌then◌else◌,
}
use module_nats.Runtime.{Status, Arg, Result, ok, raise, done, or_failed, or_failed-cases}
use module_nats.Value.{Fields}
use module_nats.Connection.Setup.{
  Callback, on_disconnect, on_reconnect, on_closed, on_error, on_lame_duck, on_discovered_servers,
  Client, Setup, Action, Setting, callback, Event, applied, skip, next, run, apply,
}
use module_nats.Connection.Options.{connection_error}
use module_nats.Connection.Construct.{
  extract_callback, hold, register, register_closed, new_context, registrations, any_callback,
  callback_keys, setup_callbacks,
}

-- The C client has accepted the callback.
abbrev pub Accepted : Callback → List Event → Type 0
Accepted k [] = ⊥
Accepted k (applied q st ∷ t) = ((q ≡ callback k) × (st ≡ Status.nats_ok)) ⊎ Accepted k t
Accepted k (_ ∷ t) = Accepted k t

abbrev IfSo : Bool → Type 0 → Type 0
IfSo true P = P
IfSo false P = Unit

-- The context holds closures, the callback of each of which was accepted, and so was, if `b`, the
-- closed callback.
abbrev Holds : Bool → Setup → Type 0
Holds b s =
    (ks : List Callback) × (s.context ≡ some ks)
    × All (λ k. Accepted k s.trace) ks
    × IfSo b (Accepted on_closed s.trace)

-- From a state with `P`, a success of the action leaves one with `Q`.
abbrev Leaves : (Setup → Type 0) → Action → (Setup → Type 0) → Type 0
Leaves P a Q = (s : Setup) → P s → (a s).0 ≡ done → Q (a s).1

next-done :
    (Q R : Setup → Type 0) (k : Action) (r : Result (Unit {0}) × Setup)
    → (r.0 ≡ done → Q r.1)
    → Leaves Q k R
    → (next k r).0 ≡ done
    → R (next k r).1
unfolding next
next-done Q R k (ok _, t) f g e = g t (f refl) e
next-done Q R k (raise x, t) f g e = absurd (cc)

then-Leaves :
    (P Q R : Setup → Type 0) (a : Action) (rest : List Action)
    → Leaves P a Q
    → Leaves Q (run rest) R
    → Leaves P (run (a ∷ rest)) R
unfolding run
then-Leaves P Q R a rest f g s p = next-done Q R (run rest) (a s) (f s p) g

run-nil : (P : Setup → Type 0) → Leaves P (run []) P
unfolding run skip
run-nil P s p e = p

all-Leaves :
    (P : Setup → Type 0) (ks : List Action) → All (λ a. Leaves P a P) ks → Leaves P (run ks) P
all-Leaves P [] h = run-nil P
all-Leaves P (a ∷ rest) (h, hs) = then-Leaves P P P a rest h (all-Leaves P rest hs)

hold_lem :
    (k : Callback) (s : Setup) (ks : List Callback)
    → s.context ≡ some ks
    → hold k s ≡ (done, record s { context = some (k ∷ ks) })
unfolding hold
hold_lem k s ks e = rw e refl

accepted_if :
    (st : Status) (fmt : String)
    → or_failed st connection_error fmt [] tt ≡ done
    → st ≡ Status.nats_ok
unfolding or_failed
accepted_if Status.nats_ok fmt e = refl
accepted_if st fmt e = absurd (cc)

IfSo-map : (b : Bool) (P Q : Type 0) → (P → Q) → IfSo b P → IfSo b Q
IfSo-map true P Q f h = f h
IfSo-map false P Q f h = tt

-- The context holds a closure whose callback is still to be set.
abbrev Pending : Callback → Bool → Setup → Type 0
Pending k b s =
    (ks : List Callback) × (s.context ≡ some (k ∷ ks))
    × All (λ j. Accepted j s.trace) ks
    × IfSo b (Accepted on_closed s.trace)

module _ (c : Client) where
  hold-Leaves : (k : Callback) (b : Bool) → Leaves (Holds b) (hold k) (Pending k b)
  hold-Leaves k b s (ks, e, held, closed) x =
      subst (λ r. Pending k b r.1) (sym (hold_lem k s ks e)) (ks, refl, held, closed)

  set-Leaves :
      (k : Callback) (b : Bool) (fmt : String)
      → Leaves (Pending k b) (apply c connection_error fmt [] (callback k)) (Holds b)
  unfolding apply
  set-Leaves k b fmt s (ks, e, held, closed) x =
      let good = accepted_if (c.apply s.trace (callback k)) fmt x in
      (
        k ∷ ks,
        e,
        (inl (refl, good), All_map (λ j h. inr h) ks held),
        IfSo-map b (Accepted on_closed s.trace) _ (λ h. inr h) closed,
      )

  -- the closed callback, with its closure or without
  set_closed-Leaves :
      (fmt : String)
      → Leaves (Holds false) (apply c connection_error fmt [] (callback on_closed)) (Holds true)
  unfolding apply
  set_closed-Leaves fmt s (ks, e, held, closed) x =
      let good = accepted_if (c.apply s.trace (callback on_closed)) fmt x in
      (ks, e, All_map (λ j h. inr h) ks held, inl (refl, good))

  hold_closed-Leaves :
      (fmt : String)
      → Leaves
          (Pending on_closed false)
          (apply c connection_error fmt [] (callback on_closed))
          (Holds true)
  unfolding apply
  hold_closed-Leaves fmt s (ks, e, held, closed) x =
      let good = accepted_if (c.apply s.trace (callback on_closed)) fmt x in
      (on_closed ∷ ks, e, (inl (refl, good), All_map (λ j h. inr h) ks held), inl (refl, good))

  choose-Leaves :
      (P Q : Setup → Type 0) (b : Bool) (a k : Action)
      → Leaves P a Q
      → Leaves P k Q
      → Leaves P (if b then a else k) Q
  choose-Leaves P Q true a k f g = f
  choose-Leaves P Q false a k f g = g

  module _ (h : Fields) where
    register-Leaves :
        (key : String) (k : Callback) (fmt : String) (b : Bool)
        → Leaves (Holds b) (register c h key k fmt) (Holds b)
    unfolding register skip
    register-Leaves key k fmt b =
        let set = apply c connection_error fmt [] (callback k) in
        choose-Leaves (Holds b) (Holds b) (extract_callback h key) (run (hold k ∷ set ∷ [])) skip
          (then-Leaves (Holds b) (Pending k b) (Holds b) (hold k) (set ∷ []) (hold-Leaves k b) (
            then-Leaves (Pending k b) (Holds b) (Holds b) set [] (set-Leaves k b fmt)
              (run-nil (Holds b))))
          λ s p e. p

    closed_case :
        (b : Bool) (fmt : String)
        → Leaves
            (Holds false)
            (run (
              (if b then hold on_closed else skip)
              ∷ apply c connection_error fmt [] (callback on_closed)
              ∷ []))
            (Holds true)
    unfolding skip
    closed_case true fmt =
        let set = apply c connection_error fmt [] (callback on_closed) in
        then-Leaves (Holds false) (Pending on_closed false) (Holds true) (hold on_closed) (set ∷ [])
          (hold-Leaves on_closed false)
          (then-Leaves (Pending on_closed false) (Holds true) (Holds true) set []
            (hold_closed-Leaves fmt) (run-nil (Holds true)))
    closed_case false fmt =
        let set = apply c connection_error fmt [] (callback on_closed) in
        then-Leaves (Holds false) (Holds false) (Holds true) skip (set ∷ []) (λ s p e. p)
          (then-Leaves (Holds false) (Holds true) (Holds true) set [] (set_closed-Leaves fmt)
            (run-nil (Holds true)))

    registrations-Leaves : Leaves (λ s. Unit) (run (registrations c h)) (Holds true)
    unfolding registrations register_closed new_context
    registrations-Leaves =
        let first =
          register c h "on_disconnect" on_disconnect "failed to set disconnect callback" in
        let second = register c h "on_reconnect" on_reconnect "failed to set reconnect callback" in
        let last : List Action =
          register c h "on_error" on_error "failed to set error handler"
          ∷ register c h "on_lame_duck" on_lame_duck "failed to set lame duck callback"
          ∷ register c h "on_discovered_servers" on_discovered_servers
              "failed to set discovered servers callback"
          ∷ [] in
        let shut = register_closed c h in
        then-Leaves (λ s. Unit) (Holds false) (Holds true) new_context
          (first ∷ second ∷ shut ∷ last) (λ s p e. ([], refl, tt, tt))
          (then-Leaves (Holds false) (Holds false) (Holds true) first (second ∷ shut ∷ last)
            (register-Leaves "on_disconnect" on_disconnect "failed to set disconnect callback"
              false)
            (then-Leaves (Holds false) (Holds false) (Holds true) second (shut ∷ last)
              (register-Leaves "on_reconnect" on_reconnect "failed to set reconnect callback" false)
              (then-Leaves (Holds false) (Holds true) (Holds true) shut last
                (closed_case (extract_callback h "on_closed") "failed to set closed callback")
                (all-Leaves (Holds true) last (
                  register-Leaves "on_error" on_error "failed to set error handler" true,
                  (
                    register-Leaves "on_lame_duck" on_lame_duck "failed to set lame duck callback"
                        true,
                    (
                      register-Leaves "on_discovered_servers" on_discovered_servers
                          "failed to set discovered servers callback" true,
                      tt,
                    ),
                  ),
                )))))

    -- When setupCallbacks succeeds on a connection without a context, the connection still has none,
    -- or it holds closures whose callbacks were all accepted by the C client, and the closed callback,
    -- which releases the C client's reference to the context, was accepted as well.
    pub setup_callbacks-Accepted :
        (s : Setup)
        → s.context ≡ none
        → (setup_callbacks c h s).0 ≡ done
        → ((setup_callbacks c h s).1.context ≡ none)
          ⊎ ((ks : List Callback) × ((setup_callbacks c h s).1.context ≡ some ks)
              × All (λ k. Accepted k (setup_callbacks c h s).1.trace) ks
              × Accepted on_closed (setup_callbacks c h s).1.trace)
    unfolding setup_callbacks skip
    setup_callbacks-Accepted s fresh =
        choose-Leaves (λ t. t.context ≡ none) (λ t. (t.context ≡ none) ⊎ Holds true t)
          (any_callback h callback_keys) (run (registrations c h)) skip
          (λ t p e. inr (registrations-Leaves t tt e)) (λ t p e. inl p) s fresh
