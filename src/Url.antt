-- ===== src/Url.antt =====
-- parse_nats_url and the policy checks of src/NatsHelper.cpp. Texts are lists of character codes.
pub mod Parts
pub mod Access
mod Tests
use module_nats.Common.{
  ℕ, zero, suc, ◌+◌, ◌*◌, ◌-◌, ◌<◌, ◌≤◌, ◌≡◌, Bool, true, false, not, ◌&&◌, Option, none, some,
  List, [], ◌∷◌, ◌++◌, ◌==◌, leb, if◌then◌else◌,
}

-- `strncmp(p, prefix, n) == 0`, and what follows the prefix
unfoldable pub skip_prefix : List ℕ → List ℕ → Option (List ℕ)
skip_prefix [] s = some s
skip_prefix (c ∷ p) [] = none
skip_prefix (c ∷ p) (d ∷ s) = let rest = skip_prefix p s in if c == d then rest else none

-- "nats://" and "tls://"
abbrev pub nats_scheme : List ℕ
nats_scheme = 110 ∷ 97 ∷ 116 ∷ 115 ∷ 58 ∷ 47 ∷ 47 ∷ []

abbrev pub tls_scheme : List ℕ
tls_scheme = 116 ∷ 108 ∷ 115 ∷ 58 ∷ 47 ∷ 47 ∷ []

unfoldable pub skip_scheme : List ℕ → List ℕ
unfolding skip_prefix
skip_scheme s = elim (skip_prefix nats_scheme s) [
  | some t ↦ t
  | none ↦ elim (skip_prefix tls_scheme s) [ some t ↦ t | none ↦ s ]
]

-- strchr: what follows the first occurrence
unfoldable pub after_first : ℕ → List ℕ → Option (List ℕ)
after_first c [] = none
after_first c (d ∷ s) = let rest = after_first c s in if d == c then some s else rest

unfoldable pub skip_userinfo : List ℕ → List ℕ
unfolding after_first
skip_userinfo s = elim (after_first 64 s) [ some t ↦ t | none ↦ s ]

-- strrchr: what precedes and what follows the last occurrence
unfoldable pub split_last : ℕ → List ℕ → Option (List ℕ × List ℕ)
split_last c [] = none
split_last c (d ∷ s) = elim (split_last c s) [
  | some p ↦ some (d ∷ p.0, p.1)
  | none ↦ if d == c then some ([], s) else none
]

-- atoi, of a text without a sign or leading blanks: the digits up to the first other character
unfoldable pub atoi_from : ℕ → List ℕ → ℕ
atoi_from n [] = n
atoi_from n (c ∷ s) =
    let rest = atoi_from (n * 10 + (c - 48)) s in if leb 48 c && leb c 57 then rest else n

-- `if (host.size() > 0 && host[host.size() - 1] == '/') host.terminate(host.size() - 1);`
unfoldable pub strip_slash : List ℕ → List ℕ
strip_slash [] = []
strip_slash (c ∷ []) = if c == 47 then [] else c ∷ []
strip_slash (c ∷ d ∷ s) = c ∷ strip_slash (d ∷ s)

unfoldable pub host_port : List ℕ → List ℕ × ℕ
unfolding split_last atoi_from strip_slash
host_port s = elim (split_last 58 s) [
  | some p ↦ (strip_slash p.0, atoi_from 0 p.1)
  | none ↦ (strip_slash s, 4222)
]

-- parse_nats_url
unfoldable pub parse_nats_url : List ℕ → List ℕ × ℕ
unfolding host_port skip_userinfo skip_scheme
parse_nats_url url = host_port (skip_userinfo (skip_scheme url))
