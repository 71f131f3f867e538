-- ===== src/Sandbox/Limits/Positive.antt =====
-- internal/sandbox/limits.go: that accepted limits leave a program some time and some memory.
use runboxd.Base.{◌≡◌, false, arith, if◌then◌else◌, Bool-cases, inl, inr}
use runboxd.Base.Int.{ℤ, pos, ◌≤ℤ◌, ◌<ℤ◌, eqb_ℤ, min_ℤ}
use runboxd.ImageSpec.Types.{Limits}
use runboxd.Sandbox.Limits.{
  resolve_lang_limits, value_with_default, int_comparable, seconds, mib, min_timeout, max_timeout,
  min_memory_bytes, max_memory_bytes,
}
use runboxd.Sandbox.Limits.Valid.{IsValid}

-- Zero is no value.
nonzero : (a : ℤ) → pos 0 ≤ℤ a → eqb_ℤ a (pos 0) ≡ false → pos 0 <ℤ a
nonzero a h k = ground arith

default_positive :
    (given default : ℤ)
    → pos 0 <ℤ default
    → pos 0 ≤ℤ value_with_default given default
    → pos 0 <ℤ value_with_default given default
unfolding value_with_default
default_positive given default h k = elim (Bool-cases (eqb_ℤ given (pos 0))) [
  | inl unset ↦ rw (unset, value_with_default) h
  | inr set ↦ ground (arith, nonzero given)
]

floor_positive :
    (asked lo hi : ℤ)
    → pos 0 <ℤ lo
    → (pos 0 ≤ℤ hi → pos 0 <ℤ hi)
    → pos 0 ≤ℤ (if eqb_ℤ asked (pos 0) then min_ℤ lo hi else asked)
    → (if eqb_ℤ asked (pos 0) then min_ℤ lo hi else asked) ≤ℤ hi
    → pos 0 <ℤ (if eqb_ℤ asked (pos 0) then min_ℤ lo hi else asked)
floor_positive asked lo hi some_lo some_hi h ordered = ground (arith, nonzero asked)

-- A lower bound of zero counts as none, and the lower bound that then applies is positive.
pub resolve_lang_limits-positive :
    (l : Limits)
    → IsValid (resolve_lang_limits l)
    → (pos 0 <ℤ (resolve_lang_limits l).min_timeout)
      × (pos 0 <ℤ (resolve_lang_limits l).min_memory_bytes)
unfolding resolve_lang_limits
resolve_lang_limits-positive l valid = (
  floor_positive (seconds l.min_timeout_seconds) min_timeout _ (omega arith)
      (default_positive (seconds l.max_timeout_seconds) max_timeout (omega arith))
      valid.timeout_nonneg valid.timeout_ordered,
  floor_positive (mib l.min_memory_mib) min_memory_bytes _ (omega arith)
      (default_positive (mib l.max_memory_mib) max_memory_bytes (omega arith)) valid.memory_nonneg
      valid.memory_ordered,
)
