-- ===== src/LangTest/Run/Meets.antt =====
-- internal/langtest/run.go: what one test demands of a run, and that its case passes exactly then.
use runboxd.Base.{
  and-true, ◌≡◌, refl, ◌↔◌, ◌⊎◌, Bool, true, false, ◌&&◌, ◌||◌, Option, none, some, List, [], ◌∷◌,
  ◌++◌, map, arith, All, ap,
}
use runboxd.Base.Int.{ℤ, pos, eqb_ℤ_iff}
use runboxd.Base.Text.{Text, text_eq, text_eq_iff, is_empty, contains}
use runboxd.Base.Map.{lookup}
use runboxd.Sandbox.Types.{RunResult, Status}
use runboxd.Sandbox.Interface.{Lookup, found, refused}
use runboxd.LangTest.Fixture.{Fixture, ConformanceTestCase, SmokeTestCase, capability_status}
use runboxd.LangTest.Run.{
  status_text, Runner, run_budget, Complaint, CaseResult, any_fails, judged, conformance_spec,
  conformance_comparisons, judge_run, smoke_spec, wanted_status, exit_code_check,
  output_comparisons, smoke_comparisons, smoke_case,
}

unfoldable pub all_passed : List CaseResult → Bool
all_passed [] = true
all_passed (r ∷ rs) = r.passed && all_passed rs

-- A text that is wanted stands in the other one.
abbrev pub Shows : Text → Text → Type 0
Shows got want = (is_empty want ≡ true) ⊎ (contains got want ≡ true)

-- The run of a conformance test ends with the status that its capability stands for.
abbrev pub MeetsConformance : Runner → Fixture → Text → ConformanceTestCase → Type 0
MeetsConformance runner fx key tc =
    (got : RunResult) × (runner (run_budget (conformance_spec fx key tc))
        (conformance_spec fx key tc)
      ≡ found got)
    × (lookup key capability_status ≡ some got.status)
    × Shows got.stderr tc.want_stderr_contains

-- The run of a smoke test ends as the test wants it, in what it names.
abbrev pub MeetsSmoke : Runner → Fixture → SmokeTestCase → Type 0
MeetsSmoke runner fx st =
    (got : RunResult) × (runner (pos 10000000000) (smoke_spec fx st) ≡ found got)
    × (status_text got.status ≡ wanted_status st)
    × ((code : ℤ) → st.want_exit_code ≡ some code → got.exit_code ≡ code)
    × ((is_empty st.want_stdout ≡ true) ⊎ (got.stdout ≡ st.want_stdout))
    × Shows got.stdout st.want_stdout_contains
    × Shows got.stderr st.want_stderr_contains

pub status_text_iff : (s t : Status) → (text_eq (status_text s) (status_text t) ≡ true) ↔ (s ≡ t)
unfolding status_text text_eq
status_text_iff s t = ground arith

pub judge_run-passed :
    (name : Text) (comparisons : RunResult → List (Bool × Complaint)) (l : Lookup RunResult)
    → ((judge_run name comparisons l).passed ≡ true)
      ↔ ((got : RunResult) × (l ≡ found got) × (any_fails (comparisons got) ≡ false))
unfolding judged
judge_run-passed name comparisons (refused e) = (λ h. cc, λ (got, e', h). cc)
judge_run-passed name comparisons (found got) = (
  λ h. (got, refl, ground arith),
  λ (other, same, h).
      let e : got ≡ other = cc in ground (arith, ap (λ g. any_fails (comparisons g)) e),
)

pub conformance_comparisons_iff :
    (want : Status) (tc : ConformanceTestCase) (got : RunResult)
    → (any_fails (conformance_comparisons want tc got) ≡ false)
      ↔ ((got.status ≡ want) × Shows got.stderr tc.want_stderr_contains)
conformance_comparisons_iff want tc got = (
  λ h. (ground (arith, status_text_iff got.status want), ground arith),
  λ h. ground (arith, status_text_iff got.status want),
)

exit_code_iff :
    (want : Option ℤ) (got : ℤ)
    → (any_fails (exit_code_check want got) ≡ false) ↔ ((code : ℤ) → want ≡ some code → got ≡ code)
exit_code_iff none got = (λ h code e. cc, λ h. refl)
exit_code_iff (some want) got = (
  λ h code e. ground (arith, eqb_ℤ_iff got want),
  λ h. ground (arith, eqb_ℤ_iff got want, h want refl),
)

any_fails-append :
    (xs ys : List (Bool × Complaint)) → any_fails (xs ++ ys) ≡ (any_fails xs || any_fails ys)
any_fails-append [] ys = refl
any_fails-append ((b, c) ∷ xs) ys = ground (arith, any_fails-append xs ys)

smoke_comparisons_iff :
    (st : SmokeTestCase) (got : RunResult)
    → (any_fails (smoke_comparisons st got) ≡ false) ↔ (
        (status_text got.status ≡ wanted_status st)
        × ((code : ℤ) → st.want_exit_code ≡ some code → got.exit_code ≡ code)
        × ((is_empty st.want_stdout ≡ true) ⊎ (got.stdout ≡ st.want_stdout))
        × Shows got.stdout st.want_stdout_contains
        × Shows got.stderr st.want_stderr_contains)
smoke_comparisons_iff st got = (
  λ h.
      let code_right : any_fails (exit_code_check st.want_exit_code got.exit_code) ≡ false =
        ground (arith, parts) in
      let outputs : any_fails (output_comparisons st got) ≡ false = ground (arith, parts) in
      (
        ground (arith, text_eq_iff (status_text got.status) (wanted_status st)),
        (exit_code_iff st.want_exit_code got.exit_code).0 code_right,
        ground (arith, text_eq_iff got.stdout st.want_stdout),
        ground arith,
        ground arith,
      ),
  λ (status, code, whole, part, errs). ground (
    arith,
    parts,
    (exit_code_iff st.want_exit_code got.exit_code).1 code,
    text_eq_iff (status_text got.status) (wanted_status st),
    text_eq_iff got.stdout st.want_stdout,
  ),
)
  where
    parts :
        any_fails (exit_code_check st.want_exit_code got.exit_code ++ output_comparisons st got) ≡ (
          any_fails (exit_code_check st.want_exit_code got.exit_code)
          || any_fails (output_comparisons st got))
    parts =
        any_fails-append (exit_code_check st.want_exit_code got.exit_code)
          (output_comparisons st got)

pub smoke_case-passed :
    (runner : Runner) (fx : Fixture) (st : SmokeTestCase)
    → ((smoke_case runner fx st).passed ≡ true) ↔ MeetsSmoke runner fx st
unfolding smoke_case
smoke_case-passed runner fx st = (
  λ h.
      let (got, ran, right) = (judge_run-passed _ (smoke_comparisons st) _).0 h in
      let (a, b, c, d, e) = (smoke_comparisons_iff st got).0 right in (got, ran, a, b, c, d, e),
  λ (got, ran, a, b, c, d, e).
      (judge_run-passed _ (smoke_comparisons st) _).1
        (got, ran, (smoke_comparisons_iff st got).1 (a, b, c, d, e)),
)

pub smoke_results-passed :
    (runner : Runner) (fx : Fixture) (sts : List SmokeTestCase)
    → (all_passed (map (smoke_case runner fx) sts) ≡ true) ↔ All (MeetsSmoke runner fx) sts
unfolding all_passed
smoke_results-passed runner fx [] = (λ h. tt, λ h. refl)
smoke_results-passed runner fx (st ∷ sts) = (
  λ h. (
    (smoke_case-passed runner fx st).0 (and-true _ _ h).0,
    (smoke_results-passed runner fx sts).0 (and-true _ _ h).1,
  ),
  λ h.
      ground
        (arith, (smoke_case-passed runner fx st).1 h.0, (smoke_results-passed runner fx sts).1 h.1),
)
