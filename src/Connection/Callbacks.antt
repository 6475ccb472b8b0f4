-- ===== src/Connection/Callbacks.antt =====
-- NatsCallbackContext of src/QoreNatsConnection.h and .cpp: the context of a connection's callbacks,
-- which the connection object and the closed callback share. The C client's threads run the callbacks.
use module_nats.Common.{
  ◌&&◌, Bool-cases, inl, inr, ℕ, zero, suc, ◌+◌, ◌<◌, ◌≡◌, ◌≢◌, refl, ap, sym, ◌∙◌, subst, Bool,
  true, false, arith, if◌then◌else◌,
}

-- `refs`, the closures that the context holds and whether it has its Program; and how many references
-- to them it has given back, how many closures were run, how often the context was deleted, and how
-- often it was used or released afterwards.
pub record Context : Type 0 where
  pub refs : ℕ
  pub closures : ℕ
  pub pgm : Bool
  pub given_back : ℕ
  pub ran : ℕ
  pub deleted : ℕ
  pub used_deleted : ℕ

-- as setupCallbacks makes it
abbrev pub new_context : ℕ → Context
new_context k = record {
  refs = 1;
  closures = k;
  pgm = true;
  given_back = 0;
  ran = 0;
  deleted = 0;
  used_deleted = 0;
}

abbrev pub one_if : Bool → ℕ
one_if true = 1
one_if false = 0

-- a use of the context, which is no use when it was deleted before
abbrev pub touch : Context → Context
touch x = elim x.deleted [ zero ↦ x | suc _ ↦ record x { used_deleted = suc x.used_deleted } ]

-- NatsCallbackContext::ref
unfoldable pub add_ref : Context → Context
add_ref x = let y = touch x in record y { refs = suc y.refs }

-- cleanup: the references to the closures and the Program are given back.
abbrev pub cleanup : Context → Context
cleanup x = record x {
  given_back = x.given_back + x.closures + one_if x.pgm;
  closures = 0;
  pgm = false;
}

-- NatsCallbackContext::release: the last reference deletes the context.
unfoldable pub release : Context → Context
release x = elim x.refs [
  | zero ↦ record x { used_deleted = suc x.used_deleted }
  | suc zero ↦ let y = touch x in record (cleanup y) { refs = 0; deleted = suc y.deleted }
  | suc (suc n) ↦ let y = touch x in record y { refs = suc n }
]

-- execCallback: the closure of the callback, if there is one (`registered`), is run in the Program.
unfoldable pub exec_callback : Bool → Context → Context
exec_callback registered x =
    let y = touch x in if registered && y.pgm then record y { ran = suc y.ran } else y

-- closedHandler: the closed callback, and the release of its reference
unfoldable pub closed_handler : Bool → Context → Context
unfolding exec_callback release
closed_handler registered x = release (exec_callback registered x)

-- QoreNatsConnection::connect: a reference for the closed callback, which is given back if
-- natsConnection_Connect made no connection
unfoldable pub connect : Bool → Context → Context
unfolding add_ref release
connect true x = add_ref x
connect false x = release (add_ref x)

-- What the C client and the connection object will still do with the context.
pub data Closing : Type 0 where
  unconnected : Closing  -- connect was not called
  connected : Closing  -- the closed callback will be posted once
  closed : Closing  -- it has run, or no connection was made

pub record System : Type 0 where
  pub context : Context
  pub closing : Closing
  pub held : Bool  -- the connection object has the pointer (cb_ctx)

abbrev pub created : ℕ → System
created k = record { context = new_context k; closing = unconnected; held = true }

pub data Step (s : System) : System → Type 0 where
  -- the constructor connects, with a connection made or not
  connects :
      (made : Bool)
      → s.held ≡ true
      → s.closing ≡ unconnected
      → Step s (record s {
        context = connect made s.context;
        closing = if made then connected else closed;
      })
  -- the C client runs a callback, before the closed one
  calls :
      (registered : Bool)
      → s.closing ≡ connected
      → Step s (record s { context = exec_callback registered s.context })
  closes :
      (registered : Bool)
      → s.closing ≡ connected
      → Step s (record s { context = closed_handler registered s.context; closing = closed })
  -- the destructor, after which nothing connects
  destructs : s.held ≡ true → Step s (record s { context = release s.context; held = false })

-- `k` closures were registered.
pub data Reach (k : ℕ) : System → Type 0 where
  start : Reach k (created k)
  later : {s t : System} → Reach k s → Step s t → Reach k t

abbrev of_bool : Bool → ℕ
of_bool true = 1
of_bool false = 0

abbrev of_closing : Closing → ℕ
of_closing unconnected = 0
of_closing connected = 1
of_closing closed = 0

abbrev gone : ℕ → ℕ
gone zero = 1
gone (suc _) = 0

-- There are `n` references, and the context was deleted, once, if there is none; then it has given back
-- the references to its `k` closures and its Program.
record Good (k n : ℕ) (x : Context) : Type 0 where
  counted : x.refs ≡ n
  deleted_once : x.deleted ≡ gone n
  unused : x.used_deleted ≡ 0
  total : x.given_back + x.closures + one_if x.pgm ≡ suc k
  emptied : n ≡ 0 → x.closures + one_if x.pgm ≡ 0

holds : (b : Bool) (c : Closing) → b ≡ true → c ≡ unconnected → of_bool b + of_closing c ≡ 1
holds b c h u = rw (h, u)

awaits : (b : Bool) (c : Closing) → c ≡ connected → of_bool b + of_closing c ≡ suc (of_bool b)
awaits b c u = rw u (omega arith)

touch-live : (x : Context) → x.deleted ≡ 0 → touch x ≡ x
touch-live x h = rw h

module _ (k : ℕ) where
  add_ref-Good : (n : ℕ) (x : Context) → Good k (suc n) x → Good k (suc (suc n)) (add_ref x)
  unfolding add_ref
  add_ref-Good n x v = rw (touch-live x v.deleted_once) (record {
    counted = ap suc v.counted;
    deleted_once = v.deleted_once;
    unused = v.unused;
    total = v.total;
    emptied = λ e. absurd (omega (arith, e));
  })

  exec_callback-Good :
      (n : ℕ) (b : Bool) (x : Context) → Good k (suc n) x → Good k (suc n) (exec_callback b x)
  unfolding exec_callback
  exec_callback-Good n b x v = elim (Bool-cases (b && x.pgm)) [
    | inl h ↦
        rw (touch-live x v.deleted_once, h)
          (record {
            counted = v.counted;
            deleted_once = v.deleted_once;
            unused = v.unused;
            total = v.total;
            emptied = v.emptied;
          })
    | inr h ↦ rw (touch-live x v.deleted_once, h) v
  ]

  release-Good : (n : ℕ) (x : Context) → Good k (suc n) x → Good k n (release x)
  unfolding release
  release-Good zero x v =
      rw (v.counted, release, touch-live x v.deleted_once)
        (record {
          counted = refl;
          deleted_once = ap suc v.deleted_once;
          unused = v.unused;
          total = let t = v.total in omega (arith, t);
          emptied = λ e. refl;
        })
  release-Good (suc n) x v =
      rw (v.counted, release, touch-live x v.deleted_once)
        (record {
          counted = refl;
          deleted_once = v.deleted_once;
          unused = v.unused;
          total = v.total;
          emptied = λ e. absurd (omega (arith, e));
        })

  -- The references are those of the object and of the closed callback to come.
  abbrev Inv : System → Type 0
  Inv s = Good k (of_bool s.held + of_closing s.closing) s.context

  recount : (n i : ℕ) (x : Context) → n ≡ i → Good k n x → Good k i x
  recount n i x e v = subst (λ j. Good k j x) e v

  Step-Inv : {s t : System} → Step s t → Inv s → Inv t
  unfolding connect closed_handler
  Step-Inv {s} (connects true h u) v =
      recount 2 _ _ (rw h) (add_ref-Good 0 s.context (recount _ 1 _ (holds s.held s.closing h u) v))
  Step-Inv {s} (connects false h u) v =
      recount 1 _ _ (rw h)
        (release-Good 1 _ (add_ref-Good 0 s.context (recount _ 1 _ (holds s.held s.closing h u) v)))
  Step-Inv {s} (calls b h) v =
      let n = awaits s.held s.closing h in
      recount _ _ _ (sym n) (exec_callback-Good _ b s.context (recount _ _ _ n v))
  Step-Inv {s} (closes b h) v = recount (of_bool s.held) _ _ (omega arith) (
      release-Good _ _
        (exec_callback-Good _ b s.context (recount _ _ _ (awaits s.held s.closing h) v)))
  Step-Inv {s} (destructs h) v =
      recount (of_closing s.closing) _ _ (omega arith)
        (release-Good _ s.context (recount _ (suc (of_closing s.closing)) _ (rw h (omega arith)) v))

  Reach-Inv : {s : System} → Reach k s → Inv s
  Reach-Inv start = record {
    counted = refl;
    deleted_once = refl;
    unused = refl;
    total = omega arith;
    emptied = λ e. absurd (omega (arith, e));
  }
  Reach-Inv (later r st) = Step-Inv st (Reach-Inv r)

closing-off : (c : Closing) → c ≢ connected → of_closing c ≡ 0
closing-off unconnected n = refl
closing-off connected n = absurd (n refl)
closing-off closed n = refl

nothing_left : (b : Bool) (c : Closing) → b ≡ false → c ≢ connected → of_bool b + of_closing c ≡ 0
nothing_left b c h n = rw (h, closing-off c n)

gone_suc : (n : ℕ) → 0 < n → gone n ≡ 0
gone_suc zero h = absurd (omega (arith, h))
gone_suc (suc n) h = refl

-- In every interleaving of the connection object and the C client's callbacks, with a connection made
-- or not, the callback context is never used or released after it was deleted; it is not deleted while
-- the object holds it or the closed callback is to come; and when neither is so it was deleted once, and
-- has given back as many references as it had to its `k` closures and its Program.
pub Reach-Deleted :
    (k : ℕ) {s : System}
    → Reach k s
    → (s.context.used_deleted ≡ 0)
      × (s.held ≡ true → s.context.deleted ≡ 0)
      × (s.closing ≡ connected → s.context.deleted ≡ 0)
      × (s.held ≡ false
          → s.closing ≢ connected
          → (s.context.deleted ≡ 1) × (s.context.given_back ≡ suc k))
Reach-Deleted k {s} r =
    let v = Reach-Inv k r in
    (
      v.unused,
      (λ h. v.deleted_once ∙ gone_suc _ (rw h (omega arith))),
      (λ u. v.deleted_once ∙ gone_suc _ (rw u (omega arith))),
      (λ h n.
          let none_left = nothing_left s.held s.closing h n in
          let a = v.total in
          let b = v.emptied none_left in (v.deleted_once ∙ ap gone none_left, omega (arith, a, b))),
    )
