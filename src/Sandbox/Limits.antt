-- ===== src/Sandbox/Limits.antt =====
-- internal/sandbox/limits.go: the limits of a language, from the registry's units (MiB, seconds) to
-- bytes and nanoseconds, and their validation. All integers are int64 and wrap.
pub mod Valid
pub mod Positive
pub mod Resolve
use runboxd.Base.{List, [], ◌∷◌, first_error, ℕ, Bool, not, ◌||◌, Option, none, some, if◌then◌else◌}
use runboxd.Base.Int.{ℤ, pos, ltb_ℤ, leb_ℤ, eqb_ℤ, min_ℤ, mul64}
use runboxd.Base.Float.{Float64, finite, eqb_zero, is_positive, is_pos_inf}
use runboxd.ImageSpec.Types.{Limits, CompileLimits}

abbrev pub second : ℕ
second = 1000000000

abbrev pub max_pids : ℤ
max_pids = pos 100

abbrev pub min_timeout : ℤ
min_timeout = pos 1000000000

abbrev pub max_timeout : ℤ
max_timeout = pos 10000000000

abbrev pub min_memory_bytes : ℤ
min_memory_bytes = pos 67108864

abbrev pub max_memory_bytes : ℤ
max_memory_bytes = pos 268435456

-- 0.5
abbrev pub default_max_cpus : Float64
default_max_cpus = finite Bool.false 1 (ℤ.negsuc 0)

abbrev pub max_output_bytes : ℕ
max_output_bytes = 1048576

abbrev pub default_workspace_size_mib : ℤ
default_workspace_size_mib = pos 10

abbrev pub default_tmp_size_mib : ℤ
default_tmp_size_mib = pos 5

pub record LangLimits : Type 0 where
  pub min_timeout : ℤ
  pub max_timeout : ℤ
  pub min_memory_bytes : ℤ
  pub max_memory_bytes : ℤ
  pub max_pids : ℤ
  pub max_cpus : Float64
  pub workspace_size_bytes : ℤ
  pub tmp_size_bytes : ℤ

pub record LangCompileLimits : Type 0 where
  pub memory_bytes : ℤ
  pub timeout : ℤ
  pub max_pids : ℤ
  pub max_cpus : Float64
  pub workspace_size_bytes : ℤ
  pub tmp_size_bytes : ℤ

-- The types at which `valueWithDefault` is used, with the test for their zero value.
pub record Comparable (T : Type 0) : Type 0 where
  pub is_zero : T → Bool

instance abbrev pub int_comparable : Comparable ℤ
int_comparable = record { is_zero = λ n. eqb_ℤ n (pos 0) }

instance abbrev pub float_comparable : Comparable Float64
float_comparable = record { is_zero = eqb_zero }

unfoldable pub value_with_default : {T : Type 0} ⦃c : Comparable T⦄ → T → T → T
value_with_default ⦃c⦄ value default = if c.is_zero value then default else value

-- x * 1024 * 1024
abbrev pub mib : ℤ → ℤ
mib n = mul64 (mul64 n 1024) 1024

-- time.Duration(x) * time.Second
abbrev pub seconds : ℤ → ℤ
seconds n = mul64 n second

unfoldable pub resolve_lang_limits : Limits → LangLimits
unfolding value_with_default
resolve_lang_limits l =
    let max_t : ℤ = value_with_default (seconds l.max_timeout_seconds) max_timeout in
    let max_m : ℤ = value_with_default (mib l.max_memory_mib) max_memory_bytes in
    let min_t : ℤ = seconds l.min_timeout_seconds in
    let min_m : ℤ = mib l.min_memory_mib in
    record {
      min_timeout = if eqb_ℤ min_t (pos 0) then min_ℤ min_timeout max_t else min_t;
      max_timeout = max_t;
      min_memory_bytes = if eqb_ℤ min_m (pos 0) then min_ℤ min_memory_bytes max_m else min_m;
      max_memory_bytes = max_m;
      max_pids = value_with_default l.max_pids max_pids;
      max_cpus = value_with_default l.max_cpus default_max_cpus;
      workspace_size_bytes =
          mib (value_with_default l.workspace_size_mib default_workspace_size_mib);
      tmp_size_bytes = mib (value_with_default l.tmp_size_mib default_tmp_size_mib);
    }

pub data LimitError : Type 0 where
  negative_timeout negative_memory too_few_pids bad_cpus bad_workspace_size bad_tmp_size :
      LimitError
  min_timeout_above_max min_memory_above_max : LimitError

-- The tests of a validation in its order, with the error that each returns.
abbrev pub lang_limit_checks : LangLimits → List (Bool × LimitError)
lang_limit_checks l =
    (ltb_ℤ l.min_timeout (pos 0) || ltb_ℤ l.max_timeout (pos 0), negative_timeout)
    ∷ (ltb_ℤ l.min_memory_bytes (pos 0) || ltb_ℤ l.max_memory_bytes (pos 0), negative_memory)
    ∷ (ltb_ℤ l.max_pids (pos 1), too_few_pids)
    ∷ (not (is_positive l.max_cpus) || is_pos_inf l.max_cpus, bad_cpus)
    ∷ (leb_ℤ l.workspace_size_bytes (pos 0), bad_workspace_size)
    ∷ (leb_ℤ l.tmp_size_bytes (pos 0), bad_tmp_size)
    ∷ (ltb_ℤ l.max_timeout l.min_timeout, min_timeout_above_max)
    ∷ (ltb_ℤ l.max_memory_bytes l.min_memory_bytes, min_memory_above_max)
    ∷ []

unfoldable pub validate_lang_limits : LangLimits → Option LimitError
validate_lang_limits l = first_error (lang_limit_checks l)

unfoldable pub resolve_lang_compile_limits : CompileLimits → LangCompileLimits
unfolding value_with_default
resolve_lang_compile_limits l = record {
  memory_bytes = value_with_default (mib l.memory_mib) max_memory_bytes;
  timeout = value_with_default (seconds l.timeout_seconds) max_timeout;
  max_pids = value_with_default l.max_pids max_pids;
  max_cpus = value_with_default l.max_cpus default_max_cpus;
  workspace_size_bytes = mib (value_with_default l.workspace_size_mib default_workspace_size_mib);
  tmp_size_bytes = mib (value_with_default l.tmp_size_mib default_tmp_size_mib);
}

abbrev pub compile_limit_checks : LangCompileLimits → List (Bool × LimitError)
compile_limit_checks l =
    (ltb_ℤ l.timeout (pos 0), negative_timeout)
    ∷ (ltb_ℤ l.memory_bytes (pos 0), negative_memory)
    ∷ (ltb_ℤ l.max_pids (pos 1), too_few_pids)
    ∷ (not (is_positive l.max_cpus) || is_pos_inf l.max_cpus, bad_cpus)
    ∷ (leb_ℤ l.workspace_size_bytes (pos 0), bad_workspace_size)
    ∷ (leb_ℤ l.tmp_size_bytes (pos 0), bad_tmp_size)
    ∷ []

unfoldable pub validate_lang_compile_limits : LangCompileLimits → Option LimitError
validate_lang_compile_limits l = first_error (compile_limit_checks l)
