-- ===== src/Prelude/Int.antt =====
-- Signed 64-bit integers (`i64`): values over the native numbers, with the saturating operations.
use Prim.Native.Nat.{ℕ, suc, ◌+◌, ◌-◌, ◌/◌, ◌≤◌, ◌<◌}
use mathlib.Core.Path.{◌≡◌}
use mathlib.Core.Logic.{◌↔◌}
use mathlib.Core.Bool.{Bool, true, false}
use native.Mathlib.Omega.{arith}
use rust_http3_gateway.Prelude.Tests.{ltb, leb, eqb, if◌then◌else◌}

-- `negsuc n` is -(n + 1).
pub data ℤ : Type 0 where
  pos : ℕ → ℤ
  negsuc : ℕ → ℤ

abbrev pub pos_part : ℤ → ℕ
pos_part (pos n) = n
pos_part (negsuc n) = 0

abbrev pub neg_part : ℤ → ℕ
neg_part (pos n) = 0
neg_part (negsuc n) = suc n

-- a - b, as an integer.
abbrev pub sub_ℕ : ℕ → ℕ → ℤ
sub_ℕ a b = if leb b a then pos (a - b) else negsuc (b - a - 1)

infix 50 ◌≤ℤ◌ ◌<ℤ◌
abbrev pub ◌≤ℤ◌ : ℤ → ℤ → Type 0
a ≤ℤ b = pos_part a + neg_part b ≤ pos_part b + neg_part a

abbrev pub ◌<ℤ◌ : ℤ → ℤ → Type 0
a <ℤ b = pos_part a + neg_part b < pos_part b + neg_part a

abbrev pub ltb_ℤ : ℤ → ℤ → Bool
ltb_ℤ a b = ltb (pos_part a + neg_part b) (pos_part b + neg_part a)

abbrev pub leb_ℤ : ℤ → ℤ → Bool
leb_ℤ a b = leb (pos_part a + neg_part b) (pos_part b + neg_part a)

abbrev pub eqb_ℤ : ℤ → ℤ → Bool
eqb_ℤ a b = eqb (pos_part a + neg_part b) (pos_part b + neg_part a)

abbrev pub i64_max : ℕ
i64_max = 9_223_372_036_854_775_807

-- An integer that is out of range becomes the nearest end of the range.
abbrev pub clamp_i64 : ℤ → ℤ
clamp_i64 (pos n) = if leb n i64_max then pos n else pos i64_max
clamp_i64 (negsuc n) = if leb n i64_max then negsuc n else negsuc i64_max

unfoldable pub saturating_sub : ℤ → ℤ → ℤ
saturating_sub a b = clamp_i64 (sub_ℕ (pos_part a + neg_part b) (neg_part a + pos_part b))

unfoldable pub saturating_add : ℤ → ℤ → ℤ
saturating_add a b = clamp_i64 (sub_ℕ (pos_part a + pos_part b) (neg_part a + neg_part b))

-- `now.saturating_sub(then) > ttl`, for a limit within the range of the type.
abbrev pub older_than : ℕ → ℤ → ℤ → Bool
older_than ttl now then_ts = ltb_ℤ (pos ttl) (saturating_sub now then_ts)

pub older_than_iff :
    (ttl : ℕ) (now then_ts : ℤ)
    → ttl < i64_max
    → (older_than ttl now then_ts ≡ true)
      ↔ (pos_part then_ts + ttl + neg_part now < pos_part now + neg_part then_ts)
unfolding saturating_sub
older_than_iff ttl now then_ts h = ground arith

pub older_than_self : (ttl : ℕ) (now : ℤ) → older_than ttl now now ≡ false
unfolding saturating_sub
older_than_self ttl now = ground arith

-- Division of an `i64` by a positive number: it rounds towards zero.
unfoldable pub div_i64 : ℤ → ℕ → ℤ
div_i64 (pos n) k = pos (n / k)
div_i64 (negsuc n) k = sub_ℕ 0 (suc n / k)

pub div_i64-one : (a : ℤ) → div_i64 a 1 ≡ a
unfolding div_i64
div_i64-one (pos n) = ground arith
div_i64-one (negsuc n) = ground arith

pub eqb_ℤ-self : (a : ℤ) → eqb_ℤ a a ≡ true
eqb_ℤ-self a = ground arith
