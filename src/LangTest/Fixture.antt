-- ===== src/LangTest/Fixture.antt =====
-- internal/langtest/fixture.go: the structures of a fixture, and the checks of one that is loaded.
pub mod Accepts
use runboxd.Base.{
  ℕ, suc, Bool, true, false, not, ◌&&◌, Option, none, some, List, [], ◌∷◌, first_error,
  if◌then◌else◌,
}
use runboxd.Base.Int.{ℤ, pos, leb_ℤ}
use runboxd.Base.Text.{Text, text, text_eq, is_empty}
use runboxd.Base.Map.{Map, lookup}
use runboxd.Base.Result.{Result, ok, err}
use runboxd.Sandbox.Types.{Status, timeout, oom, runtime_error, compile_error}

pub record ConformanceTestCase : Type 0 where
  pub source : Text
  pub memory_bytes : ℤ
  pub timeout_ms : ℤ
  pub want_stderr_contains : Text

pub record FixtureFile : Type 0 where
  pub name : Text
  pub content : Text

pub record SmokeTestCase : Type 0 where
  pub name : Text
  pub source : Text
  pub stdin : Text
  pub files : List FixtureFile
  pub timeout_ms : ℤ
  pub memory_bytes : ℤ
  pub want_status : Text
  pub want_exit_code : Option ℤ
  pub want_stdout : Text
  pub want_stdout_contains : Text
  pub want_stderr_contains : Text

pub record Fixture : Type 0 where
  pub language : Text
  pub version : Text
  pub conformance_tests : Map ConformanceTestCase
  pub smoke_tests : List SmokeTestCase

abbrev pub capability_status : Map Status
capability_status =
    (text "oom", oom)
    ∷ (text "timeout", timeout)
    ∷ (text "fs_escape", runtime_error)
    ∷ (text "compile_error", compile_error)
    ∷ []

abbrev pub smoke_status : Map Status
smoke_status =
    (text "ok", Status.ok)
    ∷ (text "runtime_error", runtime_error)
    ∷ (text "timeout", timeout)
    ∷ (text "oom", oom)
    ∷ (text "compile_error", compile_error)
    ∷ []

pub data FixtureError : Type 0 where
  unknown_key no_source no_memory no_timeout no_stderr : (key : Text) → FixtureError
  no_name : (index : ℕ) → FixtureError
  no_smoke_source unknown_status : (name : Text) → FixtureError

abbrev pub is_known {ℓ} : {A : Type ℓ} → Option A → Bool
is_known none = false
is_known (some a) = true

-- One round of the loop of `validateConformanceTestCases`.
abbrev pub conformance_checks : Text → ConformanceTestCase → List (Bool × FixtureError)
conformance_checks key tc =
    (not (is_known (lookup key capability_status)), unknown_key key)
    ∷ (is_empty tc.source, no_source key)
    ∷ (text_eq key (text "oom") && leb_ℤ tc.memory_bytes (pos 0), no_memory key)
    ∷ (text_eq key (text "timeout") && leb_ℤ tc.timeout_ms (pos 0), no_timeout key)
    ∷ (text_eq key (text "fs_escape") && is_empty tc.want_stderr_contains, no_stderr key)
    ∷ []

abbrev pub or_next {ℓ} : {A : Type ℓ} → Option A → Option A → Option A
or_next (some e) rest = some e
or_next none rest = rest

unfoldable pub validate_conformance_test_cases : Map ConformanceTestCase → Option FixtureError
validate_conformance_test_cases [] = none
validate_conformance_test_cases ((key, tc) ∷ cases) =
    or_next (first_error (conformance_checks key tc)) (validate_conformance_test_cases cases)

-- One round of the loop of `validateSmokeTestCases`.
abbrev pub smoke_checks : ℕ → SmokeTestCase → List (Bool × FixtureError)
smoke_checks i tc =
    (is_empty tc.name, no_name i)
    ∷ (is_empty tc.source, no_smoke_source tc.name)
    ∷ (
      not (is_empty tc.want_status) && not (is_known (lookup tc.want_status smoke_status)),
      unknown_status tc.name,
    )
    ∷ []

unfoldable pub validate_smoke_test_cases : ℕ → List SmokeTestCase → Option FixtureError
validate_smoke_test_cases i [] = none
validate_smoke_test_cases i (tc ∷ cases) =
    or_next (first_error (smoke_checks i tc)) (validate_smoke_test_cases (suc i) cases)

-- What `LoadFixture` makes of a file that decodes: the fixture, or the first error.
abbrev or_fail : Fixture → Option FixtureError → Result FixtureError Fixture
or_fail f none = ok f
or_fail f (some e) = err e

unfoldable pub load_fixture : Fixture → Result FixtureError Fixture
load_fixture f = or_fail f (
    or_next (validate_conformance_test_cases f.conformance_tests)
      (validate_smoke_test_cases 0 f.smoke_tests))
