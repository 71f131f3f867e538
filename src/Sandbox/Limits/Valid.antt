-- ===== src/Sandbox/Limits/Valid.antt =====
-- internal/sandbox/limits.go: what `validateLangLimits` accepts, and what `resolveLangLimits` gives.
use runboxd.Base.{
  first_error-none, none-first_error, or-false_of, not-false_of, or-false, not-false, not, ◌||◌,
  ◌≡◌, true, false, none, arith,
}
use runboxd.Base.Int.{
  ℤ, pos, ◌≤ℤ◌, ◌<ℤ◌, ltb_ℤ, ltb_ℤ-false, le-ltb_ℤ, leb_ℤ-false, gt-leb_ℤ, leb_ℤ,
}
use runboxd.Base.Float.{is_positive, is_pos_inf}
use runboxd.Sandbox.Limits.{LangLimits, lang_limit_checks, validate_lang_limits}

-- What a backend relies on: ordered bounds that are not negative, at least one process, a share of
-- the processor that is positive and finite, and room in both scratch file systems.
pub record IsValid (l : LangLimits) : Type 0 where
  pub timeout_nonneg : pos 0 ≤ℤ l.min_timeout
  pub timeout_ordered : l.min_timeout ≤ℤ l.max_timeout
  pub memory_nonneg : pos 0 ≤ℤ l.min_memory_bytes
  pub memory_ordered : l.min_memory_bytes ≤ℤ l.max_memory_bytes
  pub some_pids : pos 1 ≤ℤ l.max_pids
  pub cpus_positive : is_positive l.max_cpus ≡ true
  pub cpus_finite : is_pos_inf l.max_cpus ≡ false
  pub some_workspace : pos 0 <ℤ l.workspace_size_bytes
  pub some_tmp : pos 0 <ℤ l.tmp_size_bytes

pub validate_lang_limits-none : (l : LangLimits) → validate_lang_limits l ≡ none → IsValid l
unfolding validate_lang_limits
validate_lang_limits-none l h =
    let (t, r1) = first_error-none (lang_limit_checks l) h in
    let (m, r2) = r1 in
    let (p, r3) = r2 in
    let (c, r4) = r3 in
    let (w, r5) = r4 in
    let (s, r6) = r5 in
    let (o, r7) = r6 in
    let (q, r8) = r7 in
    record {
      timeout_nonneg = ltb_ℤ-false l.min_timeout (pos 0) (or-false _ _ t).0;
      timeout_ordered = ltb_ℤ-false l.max_timeout l.min_timeout o;
      memory_nonneg = ltb_ℤ-false l.min_memory_bytes (pos 0) (or-false _ _ m).0;
      memory_ordered = ltb_ℤ-false l.max_memory_bytes l.min_memory_bytes q;
      some_pids = ltb_ℤ-false l.max_pids (pos 1) p;
      cpus_positive = not-false _ (or-false _ _ c).0;
      cpus_finite = (or-false _ _ c).1;
      some_workspace = leb_ℤ-false l.workspace_size_bytes (pos 0) w;
      some_tmp = leb_ℤ-false l.tmp_size_bytes (pos 0) s;
    }

pub none-validate_lang_limits : (l : LangLimits) → IsValid l → validate_lang_limits l ≡ none
unfolding validate_lang_limits
none-validate_lang_limits l v =
    none-first_error (lang_limit_checks l)
      (times, (memory, (pids, (cpus, (workspace, (tmp, (time_order, (memory_order, tt))))))))
  where
    nonneg : (n : ℤ) → pos 0 ≤ℤ n → ltb_ℤ n (pos 0) ≡ false
    nonneg n h = le-ltb_ℤ n (pos 0) h

    times : (ltb_ℤ l.min_timeout (pos 0) || ltb_ℤ l.max_timeout (pos 0)) ≡ false
    times =
        or-false_of _ _ (nonneg l.min_timeout v.timeout_nonneg)
          (nonneg l.max_timeout (omega (arith, v.timeout_nonneg, v.timeout_ordered)))

    memory : (ltb_ℤ l.min_memory_bytes (pos 0) || ltb_ℤ l.max_memory_bytes (pos 0)) ≡ false
    memory =
        or-false_of _ _ (nonneg l.min_memory_bytes v.memory_nonneg)
          (nonneg l.max_memory_bytes (omega (arith, v.memory_nonneg, v.memory_ordered)))

    pids : ltb_ℤ l.max_pids (pos 1) ≡ false
    pids = le-ltb_ℤ l.max_pids (pos 1) v.some_pids

    cpus : (not (is_positive l.max_cpus) || is_pos_inf l.max_cpus) ≡ false
    cpus = or-false_of _ _ (not-false_of _ v.cpus_positive) v.cpus_finite

    workspace : leb_ℤ l.workspace_size_bytes (pos 0) ≡ false
    workspace = gt-leb_ℤ l.workspace_size_bytes (pos 0) v.some_workspace

    tmp : leb_ℤ l.tmp_size_bytes (pos 0) ≡ false
    tmp = gt-leb_ℤ l.tmp_size_bytes (pos 0) v.some_tmp

    time_order : ltb_ℤ l.max_timeout l.min_timeout ≡ false
    time_order = le-ltb_ℤ l.max_timeout l.min_timeout v.timeout_ordered

    memory_order : ltb_ℤ l.max_memory_bytes l.min_memory_bytes ≡ false
    memory_order = le-ltb_ℤ l.max_memory_bytes l.min_memory_bytes v.memory_ordered
