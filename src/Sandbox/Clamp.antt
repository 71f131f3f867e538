-- ===== src/Sandbox/Clamp.antt =====
-- internal/sandbox/docker.go: `effectiveTimeout` and `effectiveMemoryBytes`, by which both backends
-- turn what a request asks for into what a run gets.
use runboxd.Base.{◌≡◌, arith, if◌then◌else◌}
use runboxd.Base.Int.{ℤ, pos, ◌≤ℤ◌, ◌<ℤ◌, leb_ℤ, min_ℤ, max_ℤ}
use runboxd.Sandbox.Limits.{LangLimits}
use runboxd.Sandbox.Limits.Valid.{IsValid}

unfoldable pub effective_timeout : ℤ → LangLimits → ℤ
effective_timeout requested limits =
    if leb_ℤ requested (pos 0)
    then limits.max_timeout
    else max_ℤ limits.min_timeout (min_ℤ requested limits.max_timeout)

unfoldable pub effective_memory_bytes : ℤ → LangLimits → ℤ
effective_memory_bytes requested limits =
    if leb_ℤ requested (pos 0)
    then limits.max_memory_bytes
    else max_ℤ limits.min_memory_bytes (min_ℤ requested limits.max_memory_bytes)

-- What a clamp promises of a request: a value within the bounds, the upper bound where nothing is
-- asked for, and the value asked for where that lies within the bounds.
pub record Clamps (requested lo hi got : ℤ) : Type 0 where
  pub at_least : lo ≤ℤ got
  pub at_most : got ≤ℤ hi
  pub unset : requested ≤ℤ pos 0 → got ≡ hi
  pub kept : pos 0 <ℤ requested → lo ≤ℤ requested → requested ≤ℤ hi → got ≡ requested

abbrev clamp : ℤ → ℤ → ℤ → ℤ
clamp requested lo hi = if leb_ℤ requested (pos 0) then hi else max_ℤ lo (min_ℤ requested hi)

clamp-Clamps : (r lo hi : ℤ) → lo ≤ℤ hi → Clamps r lo hi (clamp r lo hi)
clamp-Clamps r lo hi h = record {
  at_least = ground arith;
  at_most = ground arith;
  unset = λ u. ground arith;
  kept = λ p l g. ground arith;
}

-- Under valid limits a run gets a time within the bounds of its language.
pub effective_timeout-Clamps :
    (requested : ℤ) (l : LangLimits)
    → IsValid l
    → Clamps requested l.min_timeout l.max_timeout (effective_timeout requested l)
unfolding effective_timeout
effective_timeout-Clamps r l v = clamp-Clamps r l.min_timeout l.max_timeout v.timeout_ordered

-- Under valid limits a run gets an amount of memory within the bounds of its language.
pub effective_memory_bytes-Clamps :
    (requested : ℤ) (l : LangLimits)
    → IsValid l
    → Clamps requested l.min_memory_bytes l.max_memory_bytes (effective_memory_bytes requested l)
unfolding effective_memory_bytes
effective_memory_bytes-Clamps r l v =
    clamp-Clamps r l.min_memory_bytes l.max_memory_bytes v.memory_ordered
