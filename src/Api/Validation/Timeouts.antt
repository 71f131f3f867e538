-- ===== src/Api/Validation/Timeouts.antt =====
-- internal/api/api.go: `validateLimits` against the limits of a language, and what the run gets.
use runboxd.Base.{
  ℕ, ◌+◌, ◌*◌, ◌^◌, ◌<◌, ◌≡◌, refl, sym, ◌∙◌, ◌↔◌, ◌⊎◌, false, not, ◌&&◌, ◌||◌, or-false,
  if_some-none, none, arith, if◌then◌else◌, Bool-cases, inl, inr,
}
use runboxd.Base.Int.{
  ℤ, pos, ◌≤ℤ◌, ◌<ℤ◌, ltb_ℤ, eqb_ℤ, ltb_ℤ-false, le-ltb_ℤ, mul64-pos, mul64-wraps, eqb_ℤ_iff,
}
use runboxd.Sandbox.Limits.{LangLimits, second}
use runboxd.Sandbox.Limits.Valid.{IsValid}
use mathlib.Core.Bool.{false≢true}
use runboxd.Sandbox.Clamp.{
  Clamps, effective_timeout, effective_memory_bytes, effective_timeout-Clamps,
  effective_memory_bytes-Clamps,
}
use runboxd.Api.Types.{ExecuteRequest, timeout_out_of_range, memory_out_of_range}
use runboxd.Api.Validation.{requested_timeout, validate_timeout, validate_memory, validate_limits}

abbrev pub Within : ℤ → ℤ → ℤ → Type 0
Within lo hi n = (lo ≤ℤ n) × (n ≤ℤ hi)

-- The test of a limit: a value that was asked for, outside the bounds.
range_iff :
    (asked got lo hi : ℤ)
    → ((not (eqb_ℤ asked (pos 0)) && (ltb_ℤ got lo || ltb_ℤ hi got)) ≡ false)
      ↔ ((asked ≡ pos 0) ⊎ Within lo hi got)
range_iff asked got lo hi = (outside, inside)
  where
    outside :
        (not (eqb_ℤ asked (pos 0)) && (ltb_ℤ got lo || ltb_ℤ hi got)) ≡ false
        → (asked ≡ pos 0) ⊎ Within lo hi got
    outside h = elim (Bool-cases (eqb_ℤ asked (pos 0))) [
      | inl zero ↦ inl ((eqb_ℤ_iff asked (pos 0)).0 zero)
      | inr other ↦
          let (a, b) = or-false _ _ (rw other at h) in
          inr (ltb_ℤ-false got lo a, ltb_ℤ-false hi got b)
    ]

    inside :
        (asked ≡ pos 0) ⊎ Within lo hi got
        → (not (eqb_ℤ asked (pos 0)) && (ltb_ℤ got lo || ltb_ℤ hi got)) ≡ false
    inside (inl zero) = rw zero
    inside (inr (a, b)) = ground (arith, le-ltb_ℤ got lo a, le-ltb_ℤ hi got b)

validate_timeout_iff :
    (req : ExecuteRequest) (l : LangLimits)
    → (validate_timeout req l ≡ none)
      ↔ ((req.timeout_seconds ≡ pos 0) ⊎ Within l.min_timeout l.max_timeout (requested_timeout req))
unfolding validate_timeout
validate_timeout_iff req l =
    let range = range_iff req.timeout_seconds (requested_timeout req) l.min_timeout l.max_timeout in
    let test =
      if_some-none
        (not (eqb_ℤ req.timeout_seconds (pos 0))
          && (ltb_ℤ (requested_timeout req) l.min_timeout
              || ltb_ℤ l.max_timeout (requested_timeout req)))
        (timeout_out_of_range l.min_timeout l.max_timeout) in
    (λ h. range.0 (test.0 h), λ h. test.1 (range.1 h))

validate_memory_iff :
    (req : ExecuteRequest) (l : LangLimits)
    → (validate_memory req l ≡ none)
      ↔ ((req.memory_bytes ≡ pos 0) ⊎ Within l.min_memory_bytes l.max_memory_bytes req.memory_bytes)
unfolding validate_memory
validate_memory_iff req l =
    let range = range_iff req.memory_bytes req.memory_bytes l.min_memory_bytes l.max_memory_bytes in
    let test =
      if_some-none
        (not (eqb_ℤ req.memory_bytes (pos 0))
          && (ltb_ℤ req.memory_bytes l.min_memory_bytes
              || ltb_ℤ l.max_memory_bytes req.memory_bytes))
        (memory_out_of_range l.min_memory_bytes l.max_memory_bytes) in
    (λ h. range.0 (test.0 h), λ h. test.1 (range.1 h))

both_none :
    (req : ExecuteRequest) (l : LangLimits)
    → (validate_limits req l ≡ none)
      ↔ ((validate_timeout req l ≡ none) × (validate_memory req l ≡ none))
unfolding validate_limits
both_none req l = ground arith

-- A request passes the limits of its language exactly when the time, as a duration, and the memory
-- that it asks for lie within the bounds; zero asks for nothing.
pub validate_limits_iff :
    (req : ExecuteRequest) (l : LangLimits)
    → (validate_limits req l ≡ none) ↔ (
        ((req.timeout_seconds ≡ pos 0) ⊎ Within l.min_timeout l.max_timeout (requested_timeout req))
        × ((req.memory_bytes ≡ pos 0)
            ⊎ Within l.min_memory_bytes l.max_memory_bytes req.memory_bytes))
validate_limits_iff req l =
    let both = both_none req l in
    let time = validate_timeout_iff req l in
    let memory = validate_memory_iff req l in
    (λ h. (time.0 (both.0 h).0, memory.0 (both.0 h).1), λ h. both.1 (time.1 h.0, memory.1 h.1))

zero_timeout : (req : ExecuteRequest) → req.timeout_seconds ≡ pos 0 → requested_timeout req ≡ pos 0
zero_timeout req h = rw (h, mul64-pos 0 second (omega arith)) refl

-- A clamp gives an accepted value back.
accepted_clamp :
    (asked got lo hi res : ℤ)
    → Clamps got lo hi res
    → (asked ≡ pos 0 → got ≡ pos 0)
    → pos 0 <ℤ lo
    → (asked ≡ pos 0) ⊎ Within lo hi got
    → res ≡ (if eqb_ℤ asked (pos 0) then hi else got)
accepted_clamp asked got lo hi res c zero low h = elim (Bool-cases (eqb_ℤ asked (pos 0))) [
  | inl e ↦ rw e (c.unset (rw (zero ((eqb_ℤ_iff asked (pos 0)).0 e)) (omega arith)))
  | inr e ↦ rw e (elim h [
    | inl z ↦ absurd (false≢true (sym e ∙ (eqb_ℤ_iff asked (pos 0)).1 z))
    | inr w ↦ c.kept (omega (arith, w.0, low)) w.0 w.1
  ])
]

-- A request that passes is run as it asks: under limits that a backend accepted and that leave some
-- time and memory, the backend's clamp gives it just what it asked for, and the upper bound where
-- it asked for nothing.
pub accepted-effective :
    (req : ExecuteRequest) (l : LangLimits)
    → IsValid l
    → pos 0 <ℤ l.min_timeout
    → pos 0 <ℤ l.min_memory_bytes
    → validate_limits req l ≡ none
    → (effective_timeout (requested_timeout req) l
        ≡ (if eqb_ℤ req.timeout_seconds (pos 0) then l.max_timeout else requested_timeout req))
      × (effective_memory_bytes req.memory_bytes l
          ≡ (if eqb_ℤ req.memory_bytes (pos 0) then l.max_memory_bytes else req.memory_bytes))
accepted-effective req l v ht hm h =
    let passed = (validate_limits_iff req l).0 h in
    (
      accepted_clamp req.timeout_seconds (requested_timeout req) l.min_timeout l.max_timeout _
          (effective_timeout-Clamps (requested_timeout req) l v) (zero_timeout req) ht passed.0,
      accepted_clamp req.memory_bytes req.memory_bytes l.min_memory_bytes l.max_memory_bytes _
          (effective_memory_bytes-Clamps req.memory_bytes l v) (λ e. e) hm passed.1,
    )

-- The product of seconds and nanoseconds wraps. Every request for `n` seconds whose product with
-- 10^9 leaves a remainder `d` modulo 2^64 within the bounds passes the check of its time, however
-- large `n` is, and is run for `d` nanoseconds.
pub overlong_timeout :
    (req : ExecuteRequest) (l : LangLimits) (n q d : ℕ)
    → req.timeout_seconds ≡ pos n
    → n * second ≡ q * 2 ^ 64 + d
    → 0 < d
    → d < 2 ^ 63
    → IsValid l
    → Within l.min_timeout l.max_timeout (pos d)
    → (validate_timeout req l ≡ none) × (effective_timeout (requested_timeout req) l ≡ pos d)
overlong_timeout req l n q d h e low high v w = (
  (validate_timeout_iff req l).1 (inr (rw wrapped w)),
  rw wrapped ((effective_timeout-Clamps (pos d) l v).kept (omega arith) w.0 w.1),
)
  where
    wrapped : requested_timeout req ≡ pos d
    wrapped = rw h (mul64-wraps n second q d e high)
