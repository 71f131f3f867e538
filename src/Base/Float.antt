-- ===== src/Base/Float.antt =====
-- Go's float64. A finite value is its sign, a mantissa and a power of two, so comparison with zero
-- is exact. A product is rounded to 53 bits, ties to even; the largest exponent is not modelled.
use Prim.Native.Nat.{ℕ, zero, suc, ◌+◌, ◌-◌, ◌*◌, ◌/◌, ◌%◌, ◌^◌}
use mathlib.Core.Bool.{Bool, true, false}
use runboxd.Base.Tests.{◌==◌, ltb, if◌then◌else◌}
use runboxd.Base.Int.{ℤ, pos, negsuc}

pub data Float64 : Type 0 where
  nan : Float64
  infinity : (negative : Bool) → Float64
  finite : (negative : Bool) (mantissa : ℕ) (exponent : ℤ) → Float64

-- `x == 0`
abbrev pub eqb_zero : Float64 → Bool
eqb_zero nan = false
eqb_zero (infinity s) = false
eqb_zero (finite s m e) = m == 0

-- `x > 0`
abbrev pub is_positive : Float64 → Bool
is_positive nan = false
is_positive (infinity true) = false
is_positive (infinity false) = true
is_positive (finite true m e) = false
is_positive (finite false m e) = ltb 0 m

-- `math.IsInf(x, 1)`
abbrev pub is_pos_inf : Float64 → Bool
is_pos_inf (infinity false) = true
is_pos_inf _ = false

-- The number of binary digits of a number below 2^128.
bit_length : ℕ → ℕ → ℕ
bit_length zero n = 0
bit_length (suc f) n = let rest = bit_length f (n / 2) in if n == 0 then 0 else suc rest

-- A number rounded to 53 binary digits.
round53 : ℕ → ℕ
unfolding bit_length
round53 n =
    let unit : ℕ = 2 ^ (bit_length 128 n - 53) in
    let q : ℕ = n / unit in
    let twice : ℕ = n % unit * 2 in
    if ltb twice unit
    then q * unit
    else if ltb unit twice
    then (q + 1) * unit
    else (q + q % 2) * unit

ceil_scaled : ℕ → ℤ → ℕ
ceil_scaled m (pos e) = m * 2 ^ e
ceil_scaled m (negsuc e) = (m + (2 ^ (suc e) - 1)) / 2 ^ (suc e)

-- `math.Ceil(x * float64(k))` of a value that is not negative.
unfoldable pub ceil_times : Float64 → ℕ → ℤ
unfolding round53 ceil_scaled
ceil_times (finite false m e) k = pos (ceil_scaled (round53 (m * k)) e)
ceil_times _ k = pos 0
