-- ===== src/Connection/Permitted.antt =====
-- What the constructors of QoreNatsConnection (src/QoreNatsConnection.cpp) have asked the sandbox
-- manager before they hand a file or a server to the C client.
pub mod Settings
pub mod Options
pub mod Registrations
pub mod Constructors
mod Tests
use module_nats.Common.{
  ℕ, ℤ, pos, String, ◌≡◌, refl, sym, ap, subst, ◌∙◌, Bool, true, false, Bool-cases, ◌⊎◌, inl, inr,
  Option, none, some, List, [], ◌∷◌, ◌++◌, All, arith, if◌then◌else◌,
}
use module_nats.Common.Int.{pos_part}
use module_nats.Runtime.{Status, Arg, Result, ok, raise, raised, denied, done, or_failed}
use module_nats.Value.{Value, Values, Fields}
use module_nats.Url.Access.{Access, allowed, check_nats_network_access}
use module_nats.Connection.Setup.{
  Client, Setup, Action, Setting, Event, url_checked, file_checked, applied, connected, servers,
  url, nkey_from_seed, user_credentials, ca_certificates, certificates_chain, timeout,
  ip_resolution_order, no_randomize, log, skip, next, run, apply, check_url, check_file, on_string,
  on_int, on_bool, on_hash, on_true, options_created,
}

-- The files that the C client reads for a setting, the servers and the URL that it is given.
abbrev pub files : Setting → List String
files (nkey_from_seed key seed) = seed ∷ []
files (user_credentials path) = path ∷ []
files (ca_certificates path) = path ∷ []
files (certificates_chain cert key) = cert ∷ key ∷ []
files _ = []

abbrev pub hosts : Setting → List String
hosts (servers us) = us
hosts _ = []

abbrev pub urls : Setting → List String
urls (url u) = u ∷ []
urls _ = []

-- The URLs that were set.
abbrev pub set_urls : List Event → List String
set_urls [] = []
set_urls (applied q st ∷ t) = urls q ++ set_urls t
set_urls (_ ∷ t) = set_urls t

-- The sandbox manager permitted it.
abbrev pub UrlPermitted : List Event → String → Type 0
UrlPermitted [] u = ⊥
UrlPermitted (url_checked w a ∷ t) u = ((w ≡ u) × (a ≡ allowed)) ⊎ UrlPermitted t u
UrlPermitted (_ ∷ t) u = UrlPermitted t u

abbrev pub FilePermitted : List Event → String → Type 0
FilePermitted [] f = ⊥
FilePermitted (file_checked g b ∷ t) f = ((g ≡ f) × (b ≡ true)) ⊎ FilePermitted t f
FilePermitted (_ ∷ t) f = FilePermitted t f

-- Whenever the C client was given a file or a list of servers, each had been permitted before (an
-- empty server is none), and so had each URL that was set when it connected.
abbrev pub Checked : List Event → Type 0
Checked [] = Unit
Checked (applied q st ∷ t) =
    All (FilePermitted t) (files q) × All (λ u. (u ≡ "") ⊎ UrlPermitted t u) (hosts q) × Checked t
Checked (connected st ∷ t) = All (UrlPermitted t) (set_urls t) × Checked t
Checked (_ ∷ t) = Checked t

-- What the C client was told of the settings that concern the dialer, or the values before.
abbrev pub timeout_or : Setting → ℤ → ℤ
timeout_or (timeout n) d = n
timeout_or _ d = d

abbrev pub order_or : Setting → ℤ → ℤ
order_or (ip_resolution_order n) d = n
order_or _ d = d

abbrev pub keep_or : Setting → Bool → Bool
keep_or no_randomize d = true
keep_or _ d = d

abbrev pub told_timeout : List Event → ℤ
told_timeout [] = pos 0
told_timeout (applied q st ∷ t) = timeout_or q (told_timeout t)
told_timeout (_ ∷ t) = told_timeout t

abbrev pub told_order : List Event → ℤ
told_order [] = pos 0
told_order (applied q st ∷ t) = order_or q (told_order t)
told_order (_ ∷ t) = told_order t

abbrev pub told_keep : List Event → Bool
told_keep [] = false
told_keep (applied q st ∷ t) = keep_or q (told_keep t)
told_keep (_ ∷ t) = told_keep t

-- The state while the options are set, with `v` for the option "url".
pub record Sound (v : Value) (s : Setup) : Type 0 where
  pub checked : Checked s.trace
  pub given : All (λ u. v ≡ Value.str u) (set_urls s.trace)
  pub same_timeout : s.connect_timeout_ms ≡ told_timeout s.trace
  pub same_order : s.ip_order ≡ told_order s.trace
  pub same_keep : s.keep_order ≡ told_keep s.trace
  pub no_dialer : s.dialer ≡ none

-- A result whose state satisfies `I`, and `Q` if it is a success.
abbrev pub Ends : (Setup → Type 0) → (Setup → Type 0) → Result (Unit {0}) × Setup → Type 0
Ends I Q r = I r.1 × (r.0 ≡ done → Q r.1)

abbrev pub Any : Setup → Type 0
Any s = Unit

pub next-Ends :
    (I J Q R : Setup → Type 0) (k : Action) (r : Result (Unit {0}) × Setup)
    → Ends I Q r
    → ((t : Setup) → I t → J t)
    → ((t : Setup) → I t → Q t → Ends J R (k t))
    → Ends J R (next k r)
unfolding next
next-Ends I J Q R k (ok _, t) (i, q) out f = f t i (q refl)
next-Ends I J Q R k (raise e, t) (i, q) out f = (out t i, λ x. absurd (cc))

allowed-done :
    (u : String) (a : Access)
    → (elim a [ Access.allowed ↦ done | _ ↦ raise (denied u) ]) ≡ done
    → a ≡ allowed
allowed-done u Access.allowed e = refl
allowed-done u Access.host_denied e = absurd (cc)
allowed-done u Access.unresolved e = absurd (cc)
allowed-done u Access.address_denied e = absurd (cc)

true-done : (f : String) (b : Bool) → (if b then done else raise (denied f)) ≡ done → b ≡ true
true-done f true e = refl
true-done f false e = absurd (cc)

module _ (v : Value) where
  -- From a state with `P`, the action keeps `Sound`, and `Q` holds when it succeeds.
  abbrev pub Does : (Setup → Type 0) → Action → (Setup → Type 0) → Type 0
  Does P a Q = (s : Setup) → Sound v s → P s → Ends (Sound v) Q (a s)

  pub next-Does :
      (P Q R : Setup → Type 0) (a k : Action)
      → Does P a Q
      → Does Q k R
      → Does P (λ s. next k (a s)) R
  next-Does P Q R a k f g s i p =
      next-Ends (Sound v) (Sound v) Q R k (a s) (f s i p) (λ t x. x) (λ t j q. g t j q)

  pub skip-Does : (P : Setup → Type 0) → Does P skip P
  unfolding skip
  skip-Does P s i p = (i, λ e. p)

  -- All of the actions.
  pub run-Does : (ks : List Action) → All (λ a. Does Any a Any) ks → Does Any (run ks) Any
  unfolding run
  run-Does [] h = skip-Does Any
  run-Does (a ∷ rest) (h, hs) = next-Does Any Any Any a (run rest) h (run-Does rest hs)

  -- A call with a setting: its files, servers and URLs, and what the dialer is to know of it.
  pub apply-Does :
      (c : Client) (err fmt : String) (shown : List Arg) (q : Setting) (s : Setup)
      → Checked s.trace
      → All (FilePermitted s.trace) (files q)
      → All (λ u. (u ≡ "") ⊎ UrlPermitted s.trace u) (hosts q)
      → All (λ u. v ≡ Value.str u) (urls q ++ set_urls s.trace)
      → s.connect_timeout_ms ≡ timeout_or q (told_timeout s.trace)
      → s.ip_order ≡ order_or q (told_order s.trace)
      → s.keep_order ≡ keep_or q (told_keep s.trace)
      → s.dialer ≡ none
      → Ends (Sound v) Any (apply c err fmt shown q s)
  unfolding apply
  apply-Does c err fmt shown q s checked file host given x y z d = (
    record {
      checked = (file, host, checked);
      given = given;
      same_timeout = x;
      same_order = y;
      same_keep = z;
      no_dialer = d;
    },
    λ e. tt,
  )

  pub check_url-Does :
      (c : Client) (u : String) → Does Any (check_url c u) (λ t. UrlPermitted t.trace u)
  unfolding check_url
  check_url-Does c u s i p = (
    record {
      checked = i.checked;
      given = i.given;
      same_timeout = i.same_timeout;
      same_order = i.same_order;
      same_keep = i.same_keep;
      no_dialer = i.no_dialer;
    },
    λ e. inl (refl, allowed-done u (check_nats_network_access c.policy (c.bytes u)) e),
  )

  pub check_file-Does :
      (c : Client) (path : String) → Does Any (check_file c path) (λ t. FilePermitted t.trace path)
  unfolding check_file
  check_file-Does c path s i p = (
    record {
      checked = i.checked;
      given = i.given;
      same_timeout = i.same_timeout;
      same_order = i.same_order;
      same_keep = i.same_keep;
      no_dialer = i.no_dialer;
    },
    λ e. inl (refl, true-done path (c.check_file s.trace path) e),
  )
