-- ===== src/LangTest/Run.antt =====
-- internal/langtest/run.go: `RunFixture`, which runs every test of a fixture and judges its result.
pub mod Meets
pub mod Verdict
use runboxd.Base.{
  ℕ, Bool, true, false, not, ◌&&◌, ◌||◌, Option, none, some, List, [], ◌∷◌, ◌++◌, map, any,
  if◌then◌else◌,
}
use runboxd.Base.Int.{ℤ, pos, leb_ℤ, eqb_ℤ, ltb_ℤ, add64, mul64}
use runboxd.Base.Text.{Text, text, text_eq, is_empty, contains}
use runboxd.Base.Map.{Map, lookup}
use runboxd.Sandbox.Types.{
  RunSpec, RunResult, WorkspaceFile, Status, timeout, oom, runtime_error, internal_error,
  compile_error,
}
use runboxd.Sandbox.Interface.{Lookup, found, refused, SandboxError}
use runboxd.LangTest.Fixture.{Fixture, ConformanceTestCase, SmokeTestCase, capability_status}

-- The string behind a status.
unfoldable pub status_text : Status → Text
status_text Status.ok = text "ok"
status_text runtime_error = text "runtime_error"
status_text timeout = text "timeout"
status_text oom = text "oom"
status_text internal_error = text "internal_error"
status_text compile_error = text "compile_error"

-- `Sandbox.Run` under a context that ends after a budget of nanoseconds.
abbrev pub Runner : Type 0
Runner = (budget : ℤ) → RunSpec → Lookup RunResult

unfoldable pub run_budget : RunSpec → ℤ
run_budget rs =
    if ltb_ℤ (pos 0) rs.timeout then add64 rs.timeout (pos 30000000000) else pos 60000000000

-- A sentence of the details of a result.
pub data Complaint : Type 0 where
  wrong_status : (got want : Text) → Complaint
  wrong_exit_code : (got want : ℤ) → Complaint
  wrong_stdout stdout_lacks stderr_lacks : (got want : Text) → Complaint

pub data Detail : Type 0 where
  no_memory no_timeout : Detail
  run_failed : SandboxError → Detail
  complaints : List Complaint → Detail

pub record CaseResult : Type 0 where
  pub name : Text
  pub passed : Bool
  pub detail : Detail

-- The comparisons of a result, each with the sentence that it adds where it fails.
abbrev pub failing : List (Bool × Complaint) → List Complaint
failing [] = []
failing ((fails, c) ∷ cs) = if fails then c ∷ failing cs else failing cs

abbrev pub any_fails : List (Bool × Complaint) → Bool
any_fails [] = false
any_fails ((fails, c) ∷ cs) = fails || any_fails cs

unfoldable pub judged : Text → List (Bool × Complaint) → CaseResult
judged name checks = record {
  name = name;
  passed = not (any_fails checks);
  detail = complaints (failing checks);
}

abbrev pub not_passed : Text → Detail → CaseResult
not_passed name detail = record { name = name; passed = false; detail = detail }

unfoldable pub conformance_spec : Fixture → Text → ConformanceTestCase → RunSpec
conformance_spec fx key tc = record {
  language = fx.language;
  version = fx.version;
  code = tc.source;
  workspace_files = [];
  stdin = [];
  timeout = if text_eq key (text "timeout") then mul64 tc.timeout_ms 1000000 else pos 0;
  memory_bytes = if text_eq key (text "oom") then tc.memory_bytes else pos 0;
}

abbrev pub conformance_comparisons :
    Status → ConformanceTestCase → RunResult → List (Bool × Complaint)
conformance_comparisons want tc got =
    (
      not (text_eq (status_text got.status) (status_text want)),
      wrong_status (status_text got.status) (status_text want),
    )
    ∷ (
      not (is_empty tc.want_stderr_contains) && not (contains got.stderr tc.want_stderr_contains),
      stderr_lacks got.stderr tc.want_stderr_contains,
    )
    ∷ []

abbrev pub judge_run : Text → (RunResult → List (Bool × Complaint)) → Lookup RunResult → CaseResult
judge_run name comparisons (refused e) = not_passed name (run_failed e)
judge_run name comparisons (found got) = judged name (comparisons got)

-- The body of the loop over the capabilities.
unfoldable pub conformance_case :
    Runner → Fixture → Text → Status → ConformanceTestCase → CaseResult
conformance_case runner fx key want tc =
    let name = text "conformance/" ++ key in
    let rs = conformance_spec fx key tc in
    if text_eq key (text "oom") && leb_ℤ tc.memory_bytes (pos 0)
    then not_passed name no_memory
    else if text_eq key (text "timeout") && leb_ℤ tc.timeout_ms (pos 0)
    then not_passed name no_timeout
    else judge_run name (conformance_comparisons want tc) (runner (run_budget rs) rs)

abbrev pub and_case :
    (ConformanceTestCase → CaseResult)
    → Option ConformanceTestCase
    → List CaseResult
    → List CaseResult
and_case f none results = results
and_case f (some tc) results = f tc ∷ results

-- The loop; `capabilities` are those of `CapabilityStatus`, in the order of the loop.
unfoldable pub conformance_results : Runner → Fixture → Map Status → List CaseResult
conformance_results runner fx [] = []
conformance_results runner fx ((key, want) ∷ capabilities) =
    and_case (conformance_case runner fx key want) (lookup key fx.conformance_tests)
      (conformance_results runner fx capabilities)

unfoldable pub smoke_spec : Fixture → SmokeTestCase → RunSpec
smoke_spec fx st = record {
  language = fx.language;
  version = fx.version;
  code = st.source;
  workspace_files = map (λ f. record { path = f.name; content = f.content }) st.files;
  stdin = st.stdin;
  timeout = if ltb_ℤ (pos 0) st.timeout_ms then mul64 st.timeout_ms 1000000 else pos 0;
  memory_bytes = if ltb_ℤ (pos 0) st.memory_bytes then st.memory_bytes else pos 0;
}

abbrev pub wanted_status : SmokeTestCase → Text
wanted_status st = if is_empty st.want_status then text "ok" else st.want_status

abbrev pub exit_code_check : Option ℤ → ℤ → List (Bool × Complaint)
exit_code_check none got = []
exit_code_check (some want) got = (not (eqb_ℤ got want), wrong_exit_code got want) ∷ []

abbrev pub output_comparisons : SmokeTestCase → RunResult → List (Bool × Complaint)
output_comparisons st got =
    (
      not (is_empty st.want_stdout) && not (text_eq got.stdout st.want_stdout),
      wrong_stdout got.stdout st.want_stdout,
    )
    ∷ (
      not (is_empty st.want_stdout_contains) && not (contains got.stdout st.want_stdout_contains),
      stdout_lacks got.stdout st.want_stdout_contains,
    )
    ∷ (
      not (is_empty st.want_stderr_contains) && not (contains got.stderr st.want_stderr_contains),
      stderr_lacks got.stderr st.want_stderr_contains,
    )
    ∷ []

abbrev pub smoke_comparisons : SmokeTestCase → RunResult → List (Bool × Complaint)
smoke_comparisons st got =
    (
      not (text_eq (status_text got.status) (wanted_status st)),
      wrong_status (status_text got.status) (wanted_status st),
    )
    ∷ (exit_code_check st.want_exit_code got.exit_code ++ output_comparisons st got)

-- The body of the loop over the smoke tests, each of which has ten seconds.
unfoldable pub smoke_case : Runner → Fixture → SmokeTestCase → CaseResult
smoke_case runner fx st =
    judge_run (text "smoke/" ++ st.name) (smoke_comparisons st)
      (runner (pos 10000000000) (smoke_spec fx st))

unfoldable pub run_fixture : Runner → Map Status → Fixture → List CaseResult
run_fixture runner capabilities fx =
    conformance_results runner fx capabilities ++ map (smoke_case runner fx) fx.smoke_tests
