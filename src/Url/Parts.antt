-- ===== src/Url/Parts.antt =====
-- Printed URLs and their parts, for parse_nats_url.
use module_nats.Common.{
  ℕ, zero, suc, ◌+◌, ◌*◌, ◌-◌, ◌/◌, ◌%◌, ◌<◌, ◌≤◌, ◌≡◌, ◌≢◌, refl, Bool, true, false, Option, none,
  some, List, [], ◌∷◌, ◌++◌, ==_self, All, arith,
}
use mathlib.Core.List.{reverse_aux-eq}
use module_nats.Common.{reverse, ltb, Bool-cases, inl, inr}
use module_nats.ReplyMux.Decimal.{digits, to_string}
use module_nats.Url.{
  skip_prefix, nats_scheme, tls_scheme, skip_scheme, after_first, skip_userinfo, split_last,
  atoi_from, strip_slash, host_port, parse_nats_url,
}

skip_prefix-append : (p s : List ℕ) → skip_prefix p (p ++ s) ≡ some s
unfolding skip_prefix
skip_prefix-append [] s = refl
skip_prefix-append (c ∷ p) s = rw (==_self c) (skip_prefix-append p s)

-- A text without the character.
abbrev pub Without : ℕ → List ℕ → Type 0
Without c = All (λ d. d ≢ c)

after_first-append : (c : ℕ) (u s : List ℕ) → Without c u → after_first c (u ++ c ∷ s) ≡ some s
unfolding after_first
after_first-append c [] s w = ground (arith, ==_self c)
after_first-append c (d ∷ u) s w = ground (arith, w.0, after_first-append c u s w.1)

split_last-none : (c : ℕ) (s : List ℕ) → Without c s → split_last c s ≡ none
unfolding split_last
split_last-none c [] w = refl
split_last-none c (d ∷ s) w = ground (arith, w.0, split_last-none c s w.1)

split_last-append : (c : ℕ) (h t : List ℕ) → Without c t → split_last c (h ++ c ∷ t) ≡ some (h, t)
unfolding split_last
split_last-append c [] t w = ground (arith, split_last-none c t w)
split_last-append c (d ∷ h) t w = rw (split_last-append c h t w)

-- A text of decimal digits.
abbrev pub Digits : List ℕ → Type 0
Digits = All (λ d. (48 ≤ d) × (d < 58))

atoi_from-append :
    (n d : ℕ) (s : List ℕ)
    → Digits s
    → 48 ≤ d
    → d < 58
    → atoi_from n (s ++ d ∷ []) ≡ atoi_from n s * 10 + (d - 48)
unfolding atoi_from
atoi_from-append n d [] w a b = ground arith
atoi_from-append n d (c ∷ s) w a b =
    let ih = atoi_from-append (n * 10 + (c - 48)) d s w.1 a b in
    let (l, r) = w.0 in ground (arith, ih, l, r)

Digits-append : (d : ℕ) (s : List ℕ) → Digits s → 48 ≤ d → d < 58 → Digits (s ++ d ∷ [])
Digits-append d [] w a b = ((a, b), tt)
Digits-append d (c ∷ s) w a b = (w.0, Digits-append d s w.1 a b)

-- the digits of `digits`, most significant first
Read : ℕ → ℕ → Type 0
Read f n = Digits (reverse (digits f n)) × (atoi_from 0 (reverse (digits f n)) ≡ n)

bool_lt : (n : ℕ) → ltb n 10 ≡ true → n + 48 < 58
bool_lt n h = ground arith

next_digit :
    (f n : ℕ)
    → Read f (n / 10)
    → Digits (reverse (digits f (n / 10)) ++ (n % 10 + 48) ∷ [])
      × (atoi_from 0 (reverse (digits f (n / 10)) ++ (n % 10 + 48) ∷ []) ≡ n)
unfolding Read
next_digit f n (w, e) =
    let low : 48 ≤ n % 10 + 48 = omega arith in
    let high : n % 10 + 48 < 58 = omega arith in
    let v = atoi_from-append 0 (n % 10 + 48) (reverse (digits f (n / 10))) w low high in
    (Digits-append (n % 10 + 48) _ w low high, omega (arith, v, e))

digits-Read : (f n : ℕ) → n < f → Read f n
unfolding Read digits atoi_from
digits-Read zero n h = absurd (omega (arith, h))
digits-Read (suc f) n h = elim (Bool-cases (ltb n 10)) [
  | inl last ↦ rw last ((((omega arith), (bool_lt n last)), tt), ground arith)
  | inr more ↦
      rw (more, reverse_aux-eq (digits f (n / 10)) ((n % 10 + 48) ∷ []))
        (next_digit f n (digits-Read f (n / 10) (ground arith)))
]

port-Read : (n : ℕ) → Digits (to_string n) × (atoi_from 0 (to_string n) ≡ n)
unfolding to_string Read
port-Read n = digits-Read (suc n) n (omega arith)

Digits-Without : (c : ℕ) (s : List ℕ) → 57 < c → Digits s → Without c s
Digits-Without c [] h w = tt
Digits-Without c (d ∷ s) h w =
    let (l, r) = w.0 in ((λ e. omega (arith, l, r, e, h)), Digits-Without c s h w.1)

Without-append : (c : ℕ) (s t : List ℕ) → Without c s → Without c t → Without c (s ++ t)
Without-append c [] t a b = b
Without-append c (d ∷ s) t a b = (a.0, Without-append c s t a.1 b)

after_first-none : (c : ℕ) (s : List ℕ) → Without c s → after_first c s ≡ none
unfolding after_first
after_first-none c [] w = refl
after_first-none c (d ∷ s) w = ground (arith, w.0, after_first-none c s w.1)

-- The parts of a URL: whether its scheme is "tls", the user information, the host and the port.
pub record UrlParts : Type 0 where
  pub tls : Bool
  pub userinfo : Option (List ℕ)
  pub host : List ℕ
  pub port : Option ℕ

abbrev pub print_scheme : Bool → List ℕ
print_scheme true = tls_scheme
print_scheme false = nats_scheme

abbrev pub print_userinfo : Option (List ℕ) → List ℕ → List ℕ
print_userinfo none s = s
print_userinfo (some u) s = u ++ 64 ∷ s

abbrev pub print_port : List ℕ → Option ℕ → List ℕ
print_port host none = host
print_port host (some n) = host ++ 58 ∷ to_string n

-- The text of a URL.
abbrev pub print : UrlParts → List ℕ
print u = print_scheme u.tls ++ print_userinfo u.userinfo (print_port u.host u.port)

abbrev pub default_port : Option ℕ → ℕ
default_port none = 4222
default_port (some n) = n

abbrev pub user_text : Option (List ℕ) → List ℕ
user_text none = []
user_text (some i) = i

-- The host has no '@' and no final '/', and no ':' if no port follows; the user information has no
-- '@'; and the port is one that the int of atoi can hold.
pub record Proper (u : UrlParts) : Type 0 where
  pub host_plain : Without 64 u.host
  pub host_end : strip_slash u.host ≡ u.host
  pub host_colon : u.port ≡ none → Without 58 u.host
  pub port_int : default_port u.port < 2147483648
  pub user_plain : Without 64 (user_text u.userinfo)

skip_scheme-print : (t : Bool) (s : List ℕ) → skip_scheme (print_scheme t ++ s) ≡ s
unfolding skip_scheme skip_prefix
skip_scheme-print true s = refl
skip_scheme-print false s = refl

host_port-print :
    (host : List ℕ) (p : Option ℕ)
    → strip_slash host ≡ host
    → (p ≡ none → Without 58 host)
    → host_port (print_port host p) ≡ (host, default_port p)
unfolding host_port
host_port-print host none e w = rw (split_last-none 58 host (w refl), host_port, e)
host_port-print host (some n) e w = rw (
  split_last-append 58 host (to_string n)
      (Digits-Without 58 (to_string n) (omega arith) (port-Read n).0),
  host_port,
  e,
  (port-Read n).1,
)

print_port-Without :
    (host : List ℕ) (p : Option ℕ) → Without 64 host → Without 64 (print_port host p)
print_port-Without host none w = w
print_port-Without host (some n) w =
    Without-append 64 host _ w
      ((λ e. omega (arith, e)), Digits-Without 64 (to_string n) (omega arith) (port-Read n).0)

skip_userinfo-print :
    (i : Option (List ℕ)) (s : List ℕ)
    → Without 64 s
    → Without 64 (user_text i)
    → skip_userinfo (print_userinfo i s) ≡ s
unfolding skip_userinfo
skip_userinfo-print none s w u = rw (after_first-none 64 s w, skip_userinfo)
skip_userinfo-print (some j) s w u = rw (after_first-append 64 j s u, skip_userinfo)

-- parse_nats_url finds the host and the port, or the default port 4222, of every proper URL: with
-- scheme "nats" or "tls", with or without user information that has no '@', with a host that has no
-- '@' and no final '/', and no ':' where no port follows, and a port below 2^31 in decimal digits.
pub parse_nats_url-print :
    (u : UrlParts) → Proper u → parse_nats_url (print u) ≡ (u.host, default_port u.port)
unfolding parse_nats_url
parse_nats_url-print u p =
    rw
      (
        skip_scheme-print u.tls (print_userinfo u.userinfo (print_port u.host u.port)),
        skip_userinfo-print u.userinfo (print_port u.host u.port)
            (print_port-Without u.host u.port p.host_plain) p.user_plain,
      )
      (host_port-print u.host u.port p.host_end p.host_colon)
