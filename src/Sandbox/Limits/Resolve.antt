-- ===== src/Sandbox/Limits/Resolve.antt =====
-- internal/sandbox/limits.go: `resolveLangLimits` on limits that do not overflow.
use runboxd.Base.{
  ℕ, ◌*◌, ◌≤◌, ◌<◌, ◌≡◌, ap, ◌↔◌, ◌⊎◌, true, false, none, arith, if◌then◌else◌, ◌==◌, min,
}
use runboxd.Base.Int.{pos, ◌≤ℤ◌, mul64-pos}
use runboxd.Base.Float.{Float64, is_positive, is_pos_inf, eqb_zero}
use runboxd.ImageSpec.Types.{Limits}
use runboxd.Sandbox.Limits.{
  second, resolve_lang_limits, validate_lang_limits, seconds, mib, value_with_default,
  int_comparable,
}
use runboxd.Sandbox.Limits.Valid.{IsValid, validate_lang_limits-none, none-validate_lang_limits}

-- A limit that is not set takes its default.
abbrev pub or_default : ℕ → ℕ → ℕ
or_default n d = if n == 0 then d else n

seconds-pos : (n : ℕ) → n ≤ 9223372036 → seconds (pos n) ≡ pos (n * second)
seconds-pos n h = mul64-pos n second (omega arith)

mib-pos : (n : ℕ) → n < 8796093022208 → mib (pos n) ≡ pos (n * 1048576)
mib-pos n h =
    rw (mul64-pos n 1024 (omega arith), mul64-pos (n * 1024) 1024 (omega arith))
      (ap pos (omega arith))

default-pos : (n d : ℕ) → value_with_default (pos n) (pos d) ≡ pos (or_default n d)
unfolding value_with_default
default-pos n d = ground arith

module _ (t T m M p w s : ℕ) (c : Float64) where
  abbrev pub spec : Limits
  spec = record {
    min_timeout_seconds = pos t;
    max_timeout_seconds = pos T;
    min_memory_mib = pos m;
    max_memory_mib = pos M;
    max_pids = pos p;
    max_cpus = c;
    workspace_size_mib = pos w;
    tmp_size_mib = pos s;
  }

  -- The values of a specification that are not negative, whose products do not overflow an int64.
  pub record Fits : Type 0 where
    pub min_seconds : t ≤ 9223372036
    pub max_seconds : T ≤ 9223372036
    pub min_mib : m < 8796093022208
    pub max_mib : M < 8796093022208
    pub workspace_mib : w < 8796093022208
    pub tmp_mib : s < 8796093022208
    pub cpus : (eqb_zero c ≡ true) ⊎ ((is_positive c ≡ true) × (is_pos_inf c ≡ false))

  module _ (f : Fits) where
    resolved_min_timeout : (resolve_lang_limits spec).min_timeout ≡ pos (or_default t 1 * second)
    unfolding resolve_lang_limits
    resolved_min_timeout = ground (arith, seconds-pos t f.min_seconds, seconds-pos T f.max_seconds)

    resolved_max_timeout : (resolve_lang_limits spec).max_timeout ≡ pos (or_default T 10 * second)
    unfolding resolve_lang_limits
    resolved_max_timeout = ground (arith, seconds-pos T f.max_seconds)

    resolved_min_memory :
        (resolve_lang_limits spec).min_memory_bytes
        ≡ pos (or_default m (min 64 (or_default M 256)) * 1048576)
    unfolding resolve_lang_limits
    resolved_min_memory = ground (arith, mib-pos m f.min_mib, mib-pos M f.max_mib)

    resolved_max_memory :
        (resolve_lang_limits spec).max_memory_bytes ≡ pos (or_default M 256 * 1048576)
    unfolding resolve_lang_limits
    resolved_max_memory = ground (arith, mib-pos M f.max_mib)

    resolved_pids : (resolve_lang_limits spec).max_pids ≡ pos (or_default p 100)
    unfolding resolve_lang_limits
    resolved_pids = ground arith

    resolved_workspace :
        (resolve_lang_limits spec).workspace_size_bytes ≡ pos (or_default w 10 * 1048576)
    unfolding resolve_lang_limits
    resolved_workspace = rw (default-pos w 10) (mib-pos (or_default w 10) (ground arith))

    resolved_tmp : (resolve_lang_limits spec).tmp_size_bytes ≡ pos (or_default s 5 * 1048576)
    unfolding resolve_lang_limits
    resolved_tmp = rw (default-pos s 5) (mib-pos (or_default s 5) (ground arith))

    resolved_cpus :
        (is_positive (resolve_lang_limits spec).max_cpus ≡ true)
        × (is_pos_inf (resolve_lang_limits spec).max_cpus ≡ false)
    unfolding resolve_lang_limits
    resolved_cpus = ground (arith, f.cpus)

    resolved-IsValid :
        t ≤ or_default T 10 → m ≤ or_default M 256 → IsValid (resolve_lang_limits spec)
    resolved-IsValid ht hm = record {
      timeout_nonneg = rw resolved_min_timeout (omega arith);
      timeout_ordered = rw (resolved_min_timeout, resolved_max_timeout) (ground arith);
      memory_nonneg = rw resolved_min_memory (omega arith);
      memory_ordered = rw (resolved_min_memory, resolved_max_memory) (ground arith);
      some_pids = rw resolved_pids (ground arith);
      cpus_positive = resolved_cpus.0;
      cpus_finite = resolved_cpus.1;
      some_workspace = rw resolved_workspace (ground arith);
      some_tmp = rw resolved_tmp (ground arith);
    }

    ordered-resolved :
        IsValid (resolve_lang_limits spec) → (t ≤ or_default T 10) × (m ≤ or_default M 256)
    ordered-resolved v =
        let a : pos (or_default t 1 * second) ≤ℤ pos (or_default T 10 * second) =
          rw (resolved_min_timeout, resolved_max_timeout) at (v.timeout_ordered) in
        let b : pos (or_default m (min 64 (or_default M 256)) * 1048576)
            ≤ℤ pos (or_default M 256 * 1048576) =
          rw (resolved_min_memory, resolved_max_memory) at (v.memory_ordered) in
        (ground arith, ground arith)

    -- Limits that fit are accepted exactly when the minimum, as given, is at most the maximum that
    -- is in force (10 seconds and 256 MiB where none is given); an unset minimum never stands in
    -- the way of a low maximum.
    pub accepted_iff :
        (validate_lang_limits (resolve_lang_limits spec) ≡ none)
        ↔ ((t ≤ or_default T 10) × (m ≤ or_default M 256))
    accepted_iff = (
      λ h. ordered-resolved (validate_lang_limits-none _ h),
      λ h. none-validate_lang_limits _ (resolved-IsValid h.0 h.1),
    )
