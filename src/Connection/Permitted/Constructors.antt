-- ===== src/Connection/Permitted/Constructors.antt =====
-- The constructors of QoreNatsConnection (src/QoreNatsConnection.cpp) by the rules of
-- Connection.Permitted.
use module_nats.Common.{
  String, ◌≡◌, refl, sym, subst, ◌∙◌, Bool, true, false, ◌⊎◌, inl, inr, Option, none, some, List,
  [], ◌∷◌, All, All_map, if◌then◌else◌,
}
use module_nats.Common.Int.{pos_part}
use module_nats.Runtime.{text, done}
use module_nats.Value.{Value, Fields, get_key_value}
use module_nats.Dialer.{Dialer}
use module_nats.Dialer as Dialers
use module_nats.Connection.Setup.{
  Client, Setup, Action, url, proxy_handler, new_setup, skip, next, run, apply, check_url,
  on_string, Event,
}
use module_nats.Connection.Options.{connection_error, configure_options}
use module_nats.Connection.Construct.{
  setup_callbacks, keep_dialer, setup_dialer, create_options, connect, construct_url, construct,
}
use module_nats.Connection.Permitted.{
  UrlPermitted, Checked, set_urls, told_timeout, told_order, told_keep, Sound, Ends, Any, next-Ends,
  Does, apply-Does, check_url-Does,
}
use module_nats.Connection.Permitted.Settings.{quiet-Does}
use module_nats.Connection.Permitted.Registrations.{setup_callbacks-Does}
use module_nats.Connection.Permitted.Options.{configure_options-Does}

-- The dialer that has what the C client was told.
abbrev pub told_dialer : Client → List Event → Dialer
told_dialer c t =
    Dialers.create c.default_timeout (told_timeout t) (pos_part (told_order t)) (told_keep t)

-- What holds of a connection however its constructor ends.
abbrev pub Good : Client → Setup → Type 0
Good c s = Checked s.trace × ((s.dialer ≡ none) ⊎ (s.dialer ≡ some (told_dialer c s.trace)))

-- There is a dialer exactly under a sandbox.
abbrev pub Dialed : Client → Setup → Type 0
Dialed c s = s.dialer ≡ (if c.policy.sandboxed then some (told_dialer c s.trace) else none)

the_text : (u w : String) → Value.str u ≡ Value.str w → u ≡ w
the_text u w e = cc

module _ (v : Value) (c : Client) where
  create_options-Does :
      (P : Setup → Type 0)
      → ((s : Setup) → P s → P (create_options c s).1)
      → Does v P (create_options c) P
  unfolding create_options
  create_options-Does P keep s i p = (
    record {
      checked = i.checked;
      given = i.given;
      same_timeout = i.same_timeout;
      same_order = i.same_order;
      same_keep = i.same_keep;
      no_dialer = i.no_dialer;
    },
    λ e. keep s p,
  )

  abbrev AllAsked : Setup → Type 0
  AllAsked s = All (UrlPermitted s.trace) (set_urls s.trace)

  -- Behind the options: the sandbox, the dialer and the connection.
  connect-Good :
      (u : Option String) (s : Setup)
      → Good c s
      → AllAsked s
      → Dialed c s
      → Ends (Good c) (Dialed c) (connect c u s)
  unfolding connect
  connect-Good u s g asked d = (((asked, g.0), g.1), λ e. d)

  dialer_case-Good :
      (b : Bool) (s : Setup)
      → Sound v s
      → AllAsked s
      → Ends
          (Good c)
          (λ t. AllAsked t × (t.dialer ≡ (if b then some (told_dialer c t.trace) else none)))
          ((if b
              then run (
                  apply c connection_error "failed to set the connection handler" [] proxy_handler
                  ∷ keep_dialer c
                  ∷ [])
              else skip)
            s)
  unfolding run next skip keep_dialer apply
  dialer_case-Good false s i asked = ((i.checked, inl i.no_dialer), λ e. (asked, i.no_dialer))
  dialer_case-Good true s i asked =
      let fmt : String = "failed to set the connection handler" in
      let same : (t : Setup)
          → Sound v t
          → some (
              Dialers.create c.default_timeout t.connect_timeout_ms (pos_part t.ip_order)
                t.keep_order)
            ≡ some (told_dialer c t.trace) =
        λ t j k. some (
          Dialers.create c.default_timeout (j.same_timeout k) (pos_part (j.same_order k))
            (j.same_keep k)) in
      next-Ends (Sound v) (Good c) AllAsked
        (λ t. AllAsked t × (t.dialer ≡ some (told_dialer c t.trace))) (run (keep_dialer c ∷ []))
        (apply c connection_error fmt [] proxy_handler s)
        ((quiet-Does v c connection_error fmt [] proxy_handler refl s i tt).0, λ e. asked)
        (λ t j. (j.checked, inl j.no_dialer))
        λ t j kept. ((j.checked, inr (same t j)), λ e. (kept, same t j))

  tail-Good :
      (u : Option String) (s : Setup)
      → Sound v s
      → AllAsked s
      → Ends (Good c) (Dialed c) (run (setup_dialer c ∷ connect c u ∷ []) s)
  unfolding run setup_dialer
  tail-Good u s i asked =
      next-Ends (Good c) (Good c) (λ t. AllAsked t × Dialed c t) (Dialed c) (run (connect c u ∷ []))
        (setup_dialer c s) (dialer_case-Good c.policy.sandboxed s i asked) (λ t g. g)
        λ t g q.
          next-Ends (Good c) (Good c) (Dialed c) (Dialed c) (run []) (connect c u t)
            (connect-Good u t g q.0 q.1) (λ t g. g) λ t g d. (g, λ e. d)

  -- An action in front of the rest of a constructor.
  front-Good :
      (P Q : Setup → Type 0) (a k : Action) (s : Setup)
      → Does v P a Q
      → Sound v s
      → P s
      → ((t : Setup) → Sound v t → Q t → Ends (Good c) (Dialed c) (k t))
      → Ends (Good c) (Dialed c) (next k (a s))
  front-Good P Q a k s f i p g =
      next-Ends (Sound v) (Good c) Q (Dialed c) k (a s) (f s i p)
        (λ t j. (j.checked, inl j.no_dialer)) g

  -- Behind the check of a URL, all that were set are checked.
  all-asked :
      (u : String) (s : Setup) → v ≡ Value.str u → Sound v s → UrlPermitted s.trace u → AllAsked s
  all-asked u s e i p =
      All_map (λ w (x : v ≡ Value.str w). subst (UrlPermitted s.trace) (the_text u w (sym e ∙ x)) p)
        (set_urls s.trace) i.given

  check-asked : (x : Value) → v ≡ x → Does v Any (on_string x (check_url c)) AllAsked
  unfolding on_string
  check-asked (Value.str u) e s i p =
      let (j, q) = check_url-Does v c u s i tt in
      (j, λ d. all-asked u (check_url c u s).1 e j (q d))
  check-asked x e s i p =
      (i, λ d. All_map (λ w (y : v ≡ Value.str w). absurd (cc)) (set_urls s.trace) i.given)

new_setup-Sound : (v : Value) → Sound v new_setup
new_setup-Sound v = record {
  checked = tt;
  given = tt;
  same_timeout = refl;
  same_order = refl;
  same_keep = refl;
  no_dialer = refl;
}

construct-Ends : (c : Client) (h : Fields) → Ends (Good c) (Dialed c) (construct c h new_setup)
unfolding construct run
construct-Ends c h =
    let v = get_key_value h "url" in
    front-Good v c Any Any (create_options c) _ new_setup (create_options-Does v c Any (λ s p. tt))
      (new_setup-Sound v) tt
      λ s i p.
        front-Good v c Any Any (configure_options c h) _ s (configure_options-Does v c h refl) i tt
          λ s i p.
            front-Good v c Any Any (setup_callbacks c h) _ s (setup_callbacks-Does v c h) i tt
              λ s i p.
                front-Good v c Any (AllAsked v c) (on_string v (check_url c)) _ s
                  (check-asked v c v refl) i tt λ s i p. tail-Good v c none s i p

construct_url-Ends :
    (c : Client) (u : String) → Ends (Good c) (Dialed c) (construct_url c u new_setup)
unfolding construct_url run create_options
construct_url-Ends c u =
    let v = Value.str u in
    let fmt : String = "failed to set NATS URL '%s'" in
    let shown = text u ∷ [] in
    let Asked = λ (s : Setup). UrlPermitted s.trace u in
    front-Good v c Any Asked (check_url c u) _ new_setup (check_url-Does v c u) (new_setup-Sound v)
      tt
      λ s i p.
        front-Good v c Asked Asked (create_options c) _ s (create_options-Does v c Asked (λ s p. p))
          i p
          λ s i p.
            front-Good v c Asked (AllAsked v c) (apply c connection_error fmt shown (url u)) _ s
              (λ s i p.
                let j =
                  (apply-Does v c connection_error fmt shown (url u) s i.checked tt tt
                    (refl, i.given) i.same_timeout i.same_order i.same_keep i.no_dialer).0 in
                (j, λ e. all-asked v c u _ refl j p))
              i p λ s i p. tail-Good v c (some u) s i p

-- Whatever the options or the URL, the C client and the sandbox manager answer, and however a
-- constructor ends: each file that the C client was handed (NKey seed, credentials, CA and client
-- certificates, key) and each server of its list that is not empty had been permitted by the sandbox
-- manager before, and so had each URL that was set when the C client connected.
pub construct-Checked :
    (c : Client) (h : Fields) (u : String)
    → Checked (construct c h new_setup).1.trace × Checked (construct_url c u new_setup).1.trace
construct-Checked c h u = ((construct-Ends c h).0.0, (construct_url-Ends c u).0.0)

-- When a constructor succeeds, the connection has a dialer exactly if a sandbox governs the code that
-- creates it, and then one whose timeout, resolution order and randomization are those that the C
-- client was told, or its defaults.
pub construct-Dialed :
    (c : Client) (h : Fields) (u : String)
    → ((construct c h new_setup).0 ≡ done → Dialed c (construct c h new_setup).1)
      × ((construct_url c u new_setup).0 ≡ done → Dialed c (construct_url c u new_setup).1)
construct-Dialed c h u = ((construct-Ends c h).1, (construct_url-Ends c u).1)
