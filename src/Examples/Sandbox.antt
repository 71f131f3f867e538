-- ===== src/Examples/Sandbox.antt =====
-- internal/sandbox: the limits of a language, and a capped output.
use runboxd.Base.{◌≤◌, ◌≡◌, refl, ◌↔◌, inr, false, none, List, [], ◌∷◌, arith}
use runboxd.Base.Int.{pos}
use runboxd.Base.Float.{Float64, finite}
use runboxd.Base.Text.{Text, text}
use runboxd.Sandbox.Limits.{resolve_lang_limits, validate_lang_limits, LangLimits}
use runboxd.Sandbox.Limits.Valid.{IsValid}
use runboxd.Sandbox.Limits.Resolve.{spec, or_default, Fits, accepted_iff}

abbrev pub limits : LangLimits
limits = record {
  min_timeout = pos 1000000000;
  max_timeout = pos 10000000000;
  min_memory_bytes = pos 67108864;
  max_memory_bytes = pos 268435456;
  max_pids = pos 64;
  max_cpus = finite false 1 (pos 0);
  workspace_size_bytes = pos 10485760;
  tmp_size_bytes = pos 5242880;
}

abbrev pub limits_valid : IsValid limits
limits_valid = record {
  timeout_nonneg = omega arith;
  timeout_ordered = omega arith;
  memory_nonneg = omega arith;
  memory_ordered = omega arith;
  some_pids = omega arith;
  cpus_positive = refl;
  cpus_finite = refl;
  some_workspace = omega arith;
  some_tmp = omega arith;
}

abbrev pub one_cpu : Float64
one_cpu = finite false 1 (pos 0)

abbrev fits : Fits 0 5 0 32 0 0 0 one_cpu
fits = record {
  min_seconds = omega arith;
  max_seconds = omega arith;
  min_mib = omega arith;
  max_mib = omega arith;
  workspace_mib = omega arith;
  tmp_mib = omega arith;
  cpus = inr (refl, refl);
}

accepted_iff_example :
    (validate_lang_limits (resolve_lang_limits (spec 0 5 0 32 0 0 0 one_cpu)) ≡ none)
    ↔ ((0 ≤ or_default 5 10) × (0 ≤ or_default 32 256))
accepted_iff_example = accepted_iff 0 5 0 32 0 0 0 one_cpu fits

abbrev pub pieces : List Text
pieces = text "ab" ∷ text "cd" ∷ []
