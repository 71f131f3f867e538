-- ===== src/Base/Int.antt =====
-- Go's int64: signed integers over the native numbers, and the wrap-around of its arithmetic.
use runboxd.Base.Tests.{ltb, leb, if◌then◌else◌, ltb→lt, ltb→ge, lt→ltb, ge→ltb, leb→gt, gt→leb}
use mathlib.Core.Logic.{◌↔◌}
use Prim.Native.Nat.{ℕ, suc, ◌+◌, ◌-◌, ◌*◌, ◌/◌, ◌%◌, ◌^◌, ◌≤◌, ◌<◌, compare}
use mathlib.Core.Path.{◌≡◌}
use mathlib.Core.Bool.{Bool, true, false}
use native.Mathlib.Nat.{mod-eq_of_lt}
use native.Mathlib.Omega.{arith}

-- `negsuc n` is -(n + 1).
pub data ℤ : Type 0 where
  pos : ℕ → ℤ
  negsuc : ℕ → ℤ

abbrev pub pos_part : ℤ → ℕ
pos_part (pos n) = n
pos_part (negsuc n) = 0

abbrev pub neg_part : ℤ → ℕ
neg_part (pos n) = 0
neg_part (negsuc n) = suc n

-- a - b, as an integer.
abbrev pub sub_ℕ : ℕ → ℕ → ℤ
sub_ℕ a b = if leb b a then pos (a - b) else negsuc (b - a - 1)

infix 50 ◌≤ℤ◌ ◌<ℤ◌
abbrev pub ◌≤ℤ◌ : ℤ → ℤ → Type 0
a ≤ℤ b = pos_part a + neg_part b ≤ pos_part b + neg_part a

abbrev pub ◌<ℤ◌ : ℤ → ℤ → Type 0
a <ℤ b = pos_part a + neg_part b < pos_part b + neg_part a

abbrev pub ltb_ℤ : ℤ → ℤ → Bool
ltb_ℤ a b = ltb (pos_part a + neg_part b) (pos_part b + neg_part a)

abbrev pub leb_ℤ : ℤ → ℤ → Bool
leb_ℤ a b = leb (pos_part a + neg_part b) (pos_part b + neg_part a)

abbrev pub eqb_ℤ : ℤ → ℤ → Bool
eqb_ℤ (pos a) (pos b) = elim (compare a b) [ Prim.Native.Nat.Ordering.eq ↦ true | _ ↦ false ]
eqb_ℤ (pos a) (negsuc b) = false
eqb_ℤ (negsuc a) (pos b) = false
eqb_ℤ (negsuc a) (negsuc b) = elim (compare a b) [ Prim.Native.Nat.Ordering.eq ↦ true | _ ↦ false ]

-- Go's `min` and `max` on integers.
abbrev pub min_ℤ : ℤ → ℤ → ℤ
min_ℤ a b = if ltb_ℤ b a then b else a

abbrev pub max_ℤ : ℤ → ℤ → ℤ
max_ℤ a b = if ltb_ℤ a b then b else a

-- The value of an integer in two's complement, read back as a signed number of 64 bits.
abbrev pub signed64 : ℕ → ℤ
signed64 m = if ltb m (2 ^ 63) then pos m else negsuc (2 ^ 64 - 1 - m)

unfoldable pub wrap64 : ℤ → ℤ
wrap64 (pos n) = signed64 (n % 2 ^ 64)
wrap64 (negsuc n) = signed64 (2 ^ 64 - 1 - n % 2 ^ 64)

-- A sum, and a difference, in int64.
unfoldable pub add64 : ℤ → ℤ → ℤ
add64 a b = wrap64 (sub_ℕ (pos_part a + pos_part b) (neg_part a + neg_part b))

unfoldable pub sub64 : ℤ → ℤ → ℤ
sub64 a b = wrap64 (sub_ℕ (pos_part a + neg_part b) (neg_part a + pos_part b))

-- A product by a constant that is not negative, in int64.
unfoldable pub mul64 : ℤ → ℕ → ℤ
unfolding wrap64
mul64 (pos n) k = wrap64 (pos (n * k))
mul64 (negsuc n) k = wrap64 (sub_ℕ 0 (suc n * k))

pub mul64-pos : (n k : ℕ) → n * k < 2 ^ 63 → mul64 (pos n) k ≡ pos (n * k)
unfolding mul64
mul64-pos n k h = ground (arith, mod-eq_of_lt {n = n * k} {m = 2 ^ 64} (omega arith))

pub ltb_ℤ-true : (a b : ℤ) → ltb_ℤ a b ≡ true → a <ℤ b
ltb_ℤ-true a b h = ltb→lt _ _ h

pub ltb_ℤ-false : (a b : ℤ) → ltb_ℤ a b ≡ false → b ≤ℤ a
ltb_ℤ-false a b h = ltb→ge _ _ h

pub lt-ltb_ℤ : (a b : ℤ) → a <ℤ b → ltb_ℤ a b ≡ true
lt-ltb_ℤ a b h = lt→ltb _ _ h

pub le-ltb_ℤ : (a b : ℤ) → b ≤ℤ a → ltb_ℤ a b ≡ false
le-ltb_ℤ a b h = ge→ltb _ _ h

pub eqb_ℤ_iff : (a b : ℤ) → (eqb_ℤ a b ≡ true) ↔ (a ≡ b)
eqb_ℤ_iff a b = ground arith

pub leb_ℤ-false : (a b : ℤ) → leb_ℤ a b ≡ false → b <ℤ a
leb_ℤ-false a b h = leb→gt _ _ h

pub gt-leb_ℤ : (a b : ℤ) → b <ℤ a → leb_ℤ a b ≡ false
gt-leb_ℤ a b h = gt→leb _ _ h

pub mul64-wraps : (n k q d : ℕ) → n * k ≡ q * 2 ^ 64 + d → d < 2 ^ 63 → mul64 (pos n) k ≡ pos d
unfolding mul64
mul64-wraps n k q d e h = let low : n * k % 2 ^ 64 ≡ d = rw e (omega arith) in ground (arith, low)
