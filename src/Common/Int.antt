-- ===== src/Common/Int.antt =====
-- Signed 64-bit quantities of the source (timeouts, revisions, times) as integers over the native
-- numbers. `negsuc n` is -(n + 1).
use mathlib.Core.Path.{◌≡◌, refl, ap, ◌∙◌}
use native.Mathlib.Omega.{arith}
use Prim.Native.Nat.{◌<◌, ◌/◌, ℕ, suc, ◌+◌, ◌-◌, ◌*◌, ◌%◌, ◌^◌, ◌≤◌}
use mathlib.Core.Bool.{Bool}
use module_nats.Common.Tests.{ltb, leb, if◌then◌else◌}

pub data ℤ : Type 0 where
  pos : ℕ → ℤ
  negsuc : ℕ → ℤ

abbrev pub pos_part : ℤ → ℕ
pos_part (pos n) = n
pos_part (negsuc n) = 0

abbrev pub neg_part : ℤ → ℕ
neg_part (pos n) = 0
neg_part (negsuc n) = suc n

-- a - b, as an integer.
abbrev pub sub_ℕ : ℕ → ℕ → ℤ
sub_ℕ a b = if leb b a then pos (a - b) else negsuc (b - a - 1)

infixl 65 ◌-ℤ◌
unfoldable pub ◌-ℤ◌ : ℤ → ℤ → ℤ
a -ℤ b = sub_ℕ (pos_part a + neg_part b) (neg_part a + pos_part b)

infix 50 ◌≤ℤ◌
abbrev pub ◌≤ℤ◌ : ℤ → ℤ → Type 0
a ≤ℤ b = pos_part a + neg_part b ≤ pos_part b + neg_part a

abbrev pub ltb_ℤ : ℤ → ℤ → Bool
ltb_ℤ a b = ltb (pos_part a + neg_part b) (pos_part b + neg_part a)

abbrev pub leb_ℤ : ℤ → ℤ → Bool
leb_ℤ a b = leb (pos_part a + neg_part b) (pos_part b + neg_part a)

-- `z * n`, as `delay_ms * 1000000LL`.
unfoldable pub times : ℤ → ℕ → ℤ
times (pos m) n = pos (m * n)
times (negsuc m) n = sub_ℕ 0 (suc m * n)

-- `(int64)n` of a uint64_t
unfoldable pub int64 : ℕ → ℤ
int64 n = if ltb (n % 2 ^ 64) (2 ^ 63) then pos (n % 2 ^ 64) else negsuc (2 ^ 64 - 1 - n % 2 ^ 64)

-- `(uint64_t)z` of an int64
unfoldable pub uint64 : ℤ → ℕ
uint64 (pos n) = n % 2 ^ 64
uint64 (negsuc n) = (2 ^ 64 - 1 - n % 2 ^ 64) % 2 ^ 64

pub uint64-int64 : (n : ℕ) → n < 2 ^ 64 → uint64 (int64 n) ≡ n
unfolding uint64 int64
uint64-int64 n h = ground arith

-- `(int32_t)z` and `(int)z` of an int64
unfoldable pub int32 : ℤ → ℤ
int32 (pos n) =
    if ltb (n % 2 ^ 32) (2 ^ 31) then pos (n % 2 ^ 32) else negsuc (2 ^ 32 - 1 - n % 2 ^ 32)
int32 (negsuc n) =
    if ltb (n % 2 ^ 32) (2 ^ 31) then negsuc (n % 2 ^ 32) else pos (2 ^ 32 - 1 - n % 2 ^ 32)

-- z is between -2^31 and 2^31 - 1.
abbrev pub Fits32 : ℤ → Type 0
Fits32 (pos n) = n < 2 ^ 31
Fits32 (negsuc n) = n < 2 ^ 31

pub int32-fits : (z : ℤ) → Fits32 z → int32 z ≡ z
unfolding int32
int32-fits (pos n) h = ground arith
int32-fits (negsuc n) h = ground arith

-- `z / d`, which rounds towards 0
unfoldable pub quot : ℤ → ℕ → ℤ
quot (pos n) d = pos (n / d)
quot (negsuc n) d = sub_ℕ 0 (suc n / d)

sub_zero : (m : ℕ) → 0 < m → sub_ℕ 0 m ≡ negsuc (m - 1)
sub_zero m h = ground arith

quot-negsuc : (k n : ℕ) → k ≡ suc n * 1000000 - 1 → quot (negsuc k) 1000000 ≡ negsuc n
unfolding quot
quot-negsuc k n e =
    let d : suc k / 1000000 ≡ suc n = omega (arith, e) in
    ap (sub_ℕ 0) d ∙ sub_zero (suc n) (omega arith) ∙ ap negsuc (omega arith)

pub quot-times : (z : ℤ) → quot (times z 1000000) 1000000 ≡ z
unfolding quot times
quot-times (pos n) = ground arith
quot-times (negsuc n) =
    ap (λ z. quot z 1000000) (sub_zero (suc n * 1000000) (omega arith)) ∙ quot-negsuc _ n refl
