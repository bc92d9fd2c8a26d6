-- ===== src/Shared/Int.antt =====
-- Signed integers over the native numbers, under the library's names, and Go's 64-bit `int`,
-- `time.Duration` and `time.Time` on them.
use Prim.Native.Nat.{ℕ, zero, suc, ◌+◌, ◌-◌, ◌*◌, ◌/◌, ◌%◌, ◌^◌, ◌≤◌, ◌<◌}
use mathlib.Core.Path.{◌≡◌, refl}
use mathlib.Core.Bool.{Bool, true, false}
use native.Mathlib.Omega.{arith}
use task_management_api.Shared.Tests.{ltb, leb, ◌==◌, if◌then◌else◌}

-- `negsuc n` is -(n + 1).
pub data ℤ : Type 0 where
  pos : ℕ → ℤ
  negsuc : ℕ → ℤ

abbrev pub pos_part : ℤ → ℕ
pos_part (pos n) = n
pos_part (negsuc n) = 0

abbrev pub neg_part : ℤ → ℕ
neg_part (pos n) = 0
neg_part (negsuc n) = suc n

abbrev pub sub_ℕ : ℕ → ℕ → ℤ
sub_ℕ a b = if leb b a then pos (a - b) else negsuc (b - a - 1)

infixl 65 ◌+ℤ◌ ◌-ℤ◌
infix 50 ◌≤ℤ◌ ◌<ℤ◌
unfoldable pub ◌+ℤ◌ : ℤ → ℤ → ℤ
a +ℤ b = sub_ℕ (pos_part a + pos_part b) (neg_part a + neg_part b)

unfoldable pub ◌-ℤ◌ : ℤ → ℤ → ℤ
a -ℤ b = sub_ℕ (pos_part a + neg_part b) (neg_part a + pos_part b)

abbrev pub ◌≤ℤ◌ : ℤ → ℤ → Type 0
a ≤ℤ b = pos_part a + neg_part b ≤ pos_part b + neg_part a

abbrev pub ◌<ℤ◌ : ℤ → ℤ → Type 0
a <ℤ b = pos_part a + neg_part b < pos_part b + neg_part a

abbrev pub ltb_ℤ : ℤ → ℤ → Bool
ltb_ℤ a b = ltb (pos_part a + neg_part b) (pos_part b + neg_part a)

abbrev pub leb_ℤ : ℤ → ℤ → Bool
leb_ℤ a b = leb (pos_part a + neg_part b) (pos_part b + neg_part a)

abbrev pub max_int64 : ℕ
max_int64 = 0x7fff_ffff_ffff_ffff

-- `n++` on an int64: the largest value wraps to the smallest.
unfoldable pub inc : ℤ → ℤ
inc (pos n) = if n == max_int64 then negsuc max_int64 else pos (suc n)
inc (negsuc zero) = pos 0
inc (negsuc (suc n)) = negsuc n

-- A value held to the range of an int64.
unfoldable pub saturate : ℤ → ℤ
saturate (pos n) = if leb n max_int64 then pos n else pos max_int64
saturate (negsuc n) = if leb n max_int64 then negsuc n else negsuc max_int64

-- A `time.Time` is the nanoseconds since the Unix epoch. `t.Sub(u)` saturates as Go's does.
abbrev pub Time : Type 0
Time = ℤ

unfoldable pub sub_time : Time → Time → ℤ
unfolding saturate ◌-ℤ◌
sub_time t u = saturate (t -ℤ u)

-- `t.After(u)`.
abbrev pub after : Time → Time → Bool
after t u = ltb_ℤ u t

-- `Unix()`: whole seconds, rounded down.
unfoldable pub unix : Time → ℤ
unix (pos n) = pos (n / 1_000_000_000)
unix (negsuc n) = negsuc (n / 1_000_000_000)

pub +ℤ_parts :
    (a b : ℤ)
    → pos_part (a +ℤ b) + neg_part a + neg_part b ≡ neg_part (a +ℤ b) + pos_part a + pos_part b
unfolding ◌+ℤ◌
+ℤ_parts a b = ground arith

pub -ℤ_parts :
    (a b : ℤ)
    → pos_part (a -ℤ b) + neg_part a + pos_part b ≡ neg_part (a -ℤ b) + pos_part a + neg_part b
unfolding ◌-ℤ◌
-ℤ_parts a b = ground arith

pub eq_of_parts : (a b : ℤ) → pos_part a + neg_part b ≡ pos_part b + neg_part a → a ≡ b
eq_of_parts a b h = ground arith

-- Below the largest int64 `inc` adds one.
pub inc_parts :
    (a : ℤ) → a <ℤ pos max_int64 → pos_part (inc a) + neg_part a ≡ neg_part (inc a) + pos_part a + 1
unfolding inc
inc_parts (pos n) h = ground arith
inc_parts (negsuc zero) h = refl
inc_parts (negsuc (suc n)) h = omega arith

-- Once at least `d`, a difference of times still is so after saturation, for `d` in range.
pub sub_time_ge : (t u d : ℤ) → d ≤ℤ pos max_int64 → u +ℤ d ≤ℤ t → leb_ℤ d (sub_time t u) ≡ true
unfolding sub_time
sub_time_ge t u d r h = ground (arith, -ℤ_parts t u, +ℤ_parts u d)

-- Before `u + d` the difference from `u` is below `d`, for `d` above the smallest int64.
pub sub_time_lt : (t u d : ℤ) → negsuc max_int64 <ℤ d → t <ℤ u +ℤ d → leb_ℤ d (sub_time t u) ≡ false
unfolding sub_time
sub_time_lt t u d r h = ground (arith, -ℤ_parts t u, +ℤ_parts u d)

-- An integer brought into the range of an int64, modulo 2^64.
unfoldable pub wrap_int64 : ℤ → ℤ
wrap_int64 (pos n) =
    let r = n % 2 ^ 64 in if leb r max_int64 then pos r else negsuc (2 ^ 64 - r - 1)
wrap_int64 (negsuc n) =
    let r = n % 2 ^ 64 in if leb r max_int64 then negsuc r else pos (2 ^ 64 - 1 - r)

unfoldable pub add_int64 : ℤ → ℤ → ℤ
unfolding wrap_int64 ◌+ℤ◌
add_int64 a b = wrap_int64 (a +ℤ b)

infixl 70 ◌*ℤ◌
unfoldable pub ◌*ℤ◌ : ℤ → ℤ → ℤ
a *ℤ b =
    sub_ℕ (pos_part a * pos_part b + neg_part a * neg_part b)
      (pos_part a * neg_part b + neg_part a * pos_part b)

unfoldable pub sub_int64 : ℤ → ℤ → ℤ
unfolding wrap_int64 ◌-ℤ◌
sub_int64 a b = wrap_int64 (a -ℤ b)

unfoldable pub mul_int64 : ℤ → ℤ → ℤ
unfolding wrap_int64 ◌*ℤ◌
mul_int64 a b = wrap_int64 (a *ℤ b)

pub wrap_small : (n : ℕ) → n ≤ max_int64 → wrap_int64 (pos n) ≡ pos n
unfolding wrap_int64
wrap_small n h = ground arith

-- On small natural numbers the operations are exact.
pub sub_int64-exact : (a b : ℕ) → b ≤ a → a ≤ max_int64 → sub_int64 (pos a) (pos b) ≡ pos (a - b)
unfolding sub_int64 ◌-ℤ◌
sub_int64-exact a b h k = ground (arith, wrap_small (a - b) (omega arith))

pub add_int64-exact : (a b : ℕ) → a + b ≤ max_int64 → add_int64 (pos a) (pos b) ≡ pos (a + b)
unfolding add_int64 ◌+ℤ◌
add_int64-exact a b h = ground (arith, wrap_small (a + b) h)

pub mul_int64-exact : (a b : ℕ) → a * b ≤ max_int64 → mul_int64 (pos a) (pos b) ≡ pos (a * b)
unfolding mul_int64 ◌*ℤ◌
mul_int64-exact a b k = ground (arith, wrap_small (a * b) k)
