-- ===== src/Examples/LangTest.antt =====
-- internal/langtest: a fixture with one test of each kind, and a sandbox that passes it.
use runboxd.Base.{◌≡◌, refl, ◌↔◌, some, [], ◌∷◌, All, true, if◌then◌else◌}
use runboxd.Base.Int.{pos}
use runboxd.Base.Text.{Text, text, text_eq}
use runboxd.Base.Map.{lookup}
use runboxd.Base.Result.{ok}
use runboxd.Sandbox.Types.{oom, Status}
use runboxd.Sandbox.Interface.{found}
use runboxd.LangTest.Fixture.{
  Fixture, ConformanceTestCase, capability_status, load_fixture, validate_conformance_test_cases,
  validate_smoke_test_cases,
}
use runboxd.LangTest.Run.{Runner, run_fixture}
use runboxd.LangTest.Run.Meets.{all_passed, MeetsConformance, MeetsSmoke}
use runboxd.LangTest.Run.Verdict.{run_fixture_iff, IsOrder}

abbrev pub fixture : Fixture
fixture = record {
  language = text "c";
  version = text "13";
  conformance_tests =
      (
        text "oom",
        record {
          source = text "x";
          memory_bytes = pos 67108864;
          timeout_ms = pos 0;
          want_stderr_contains = [];
        },
      )
      ∷ [];
  smoke_tests =
      record {
        name = text "hello";
        source = text "y";
        stdin = [];
        files = [];
        timeout_ms = pos 0;
        memory_bytes = pos 0;
        want_status = [];
        want_exit_code = some (pos 0);
        want_stdout = [];
        want_stdout_contains = [];
        want_stderr_contains = [];
      }
      ∷ [];
}

-- The program of the first test ends for want of memory.
abbrev runner : Runner
runner budget spec = found (record {
  stdout = [];
  stderr = [];
  exit_code = pos 0;
  status = if text_eq spec.code (text "x") then oom else Status.ok;
  duration = pos 5;
})

order : IsOrder capability_status
unfolding lookup text_eq
order = record { sound = (refl, (refl, (refl, (refl, tt)))); complete = λ key s h. h }

fixture_loads : load_fixture fixture ≡ ok fixture
unfolding load_fixture validate_conformance_test_cases validate_smoke_test_cases lookup text_eq
fixture_loads = refl

run_fixture_iff_example : (all_passed (run_fixture runner capability_status fixture) ≡ true) ↔ (
    ((key : Text) (tc : ConformanceTestCase)
      → lookup key fixture.conformance_tests ≡ some tc
      → MeetsConformance runner fixture key tc)
    × All (MeetsSmoke runner fixture) fixture.smoke_tests)
run_fixture_iff_example = run_fixture_iff runner capability_status fixture order fixture_loads
