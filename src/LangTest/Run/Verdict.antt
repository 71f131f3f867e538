-- ===== src/LangTest/Run/Verdict.antt =====
-- internal/langtest/run.go: which fixtures pass.
use runboxd.Base.{
  subst, Option-cases, and-true, ◌≡◌, refl, ◌↔◌, inl, inr, true, ◌&&◌, Option, none, some, List, [],
  ◌∷◌, ◌++◌, map, arith, All, ap, sym, ◌∙◌,
}
use runboxd.Base.Int.{pos, gt-leb_ℤ}
use runboxd.Base.Text.{Text, text}
use runboxd.Base.Map.{Map, lookup, lookup-All}
use runboxd.Base.Result.{ok}
use mathlib.Core.Bool.{false≢true}
use runboxd.Sandbox.Types.{Status}
use runboxd.LangTest.Fixture.{Fixture, ConformanceTestCase, capability_status, load_fixture}
use runboxd.LangTest.Fixture.Accepts.{IsConformance, for_key_iff, load_fixture_iff}
use runboxd.LangTest.Run.{
  Runner, CaseResult, conformance_comparisons, conformance_case, and_case, conformance_results,
  smoke_case, run_fixture,
}
use runboxd.LangTest.Run.Meets.{
  all_passed, MeetsConformance, MeetsSmoke, judge_run-passed, conformance_comparisons_iff,
  smoke_results-passed,
}

-- `capabilities` are those of `CapabilityStatus`, in some order.
pub record IsOrder (capabilities : Map Status) : Type 0 where
  pub sound : All (λ e. lookup e.0 capability_status ≡ some e.1) capabilities
  pub complete :
      (key : Text) (s : Status)
      → lookup key capability_status ≡ some s
      → lookup key capabilities ≡ some s

-- A conformance test that was validated is always run.
conformance_case-passed :
    (runner : Runner) (fx : Fixture) (key : Text) (want : Status) (tc : ConformanceTestCase)
    → IsConformance (key, tc)
    → lookup key capability_status ≡ some want
    → ((conformance_case runner fx key want tc).passed ≡ true) ↔ MeetsConformance runner fx key tc
unfolding conformance_case
conformance_case-passed runner fx key want tc valid known =
    let no_oom =
      (for_key_iff key (text "oom") _).1
        (λ q. gt-leb_ℤ tc.memory_bytes (pos 0) (valid.bounds_memory q)) in
    let no_timeout =
      (for_key_iff key (text "timeout") _).1
        (λ q. gt-leb_ℤ tc.timeout_ms (pos 0) (valid.bounds_time q)) in
    rw (no_oom, no_timeout)
      (
        λ h.
            let (got, ran, right) = (judge_run-passed _ (conformance_comparisons want tc) _).0 h in
            let (status, shows) = (conformance_comparisons_iff want tc got).0 right in
            (got, ran, known ∙ ap some (sym status), shows),
        λ (got, ran, status, shows).
            let same : got.status ≡ want = cc in
            (judge_run-passed _ (conformance_comparisons want tc) _).1
              (got, ran, (conformance_comparisons_iff want tc got).1 (same, shows)),
      )

-- Every test in the fixture of one of the capabilities of the loop passed.
abbrev Handled : Runner → Fixture → Text × Status → Type 0
Handled runner fx e =
    (tc : ConformanceTestCase)
    → lookup e.0 fx.conformance_tests ≡ some tc
    → (conformance_case runner fx e.0 e.1 tc).passed ≡ true

and_case-passed :
    (f : ConformanceTestCase → CaseResult) (o : Option ConformanceTestCase) (rs : List CaseResult)
    → (all_passed (and_case f o rs) ≡ true)
      ↔ (((tc : ConformanceTestCase) → o ≡ some tc → (f tc).passed ≡ true) × (all_passed rs ≡ true))
unfolding all_passed
and_case-passed f none rs = (λ h. (λ tc e. cc, h), λ h. h.1)
and_case-passed f (some tc) rs = (
  λ h. (
    λ tc' e. let same : tc ≡ tc' = cc in subst (λ t. (f t).passed ≡ true) same (and-true _ _ h).0,
    (and-true _ _ h).1,
  ),
  λ h. ground (arith, h.0 tc refl),
)

conformance_results-passed :
    (runner : Runner) (fx : Fixture) (capabilities : Map Status)
    → (all_passed (conformance_results runner fx capabilities) ≡ true)
      ↔ All (Handled runner fx) capabilities
unfolding conformance_results all_passed
conformance_results-passed runner fx [] = (λ h. tt, λ h. refl)
conformance_results-passed runner fx ((key, want) ∷ capabilities) = (
  λ h.
      let (here, rest) = (and_case-passed _ _ _).0 h in
      (here, (conformance_results-passed runner fx capabilities).0 rest),
  λ h.
      (and_case-passed (conformance_case runner fx key want) (lookup key fx.conformance_tests) _).1
        (h.0, (conformance_results-passed runner fx capabilities).1 h.1),
)

all_passed-append :
    (xs ys : List CaseResult) → all_passed (xs ++ ys) ≡ (all_passed xs && all_passed ys)
unfolding all_passed
all_passed-append [] ys = refl
all_passed-append (r ∷ xs) ys = ground (arith, all_passed-append xs ys)

-- Every conformance test of a fixture that was loaded is handled in any order of the capabilities.
each_capability_iff :
    (runner : Runner) (fx : Fixture) (capabilities : Map Status)
    → IsOrder capabilities
    → All IsConformance fx.conformance_tests
    → All (Handled runner fx) capabilities ↔ (
        (key : Text) (tc : ConformanceTestCase)
        → lookup key fx.conformance_tests ≡ some tc
        → MeetsConformance runner fx key tc)
each_capability_iff runner fx capabilities order valid = (handled, met capabilities order.sound)
  where
    handled :
        All (Handled runner fx) capabilities
        → (key : Text) (tc : ConformanceTestCase) → lookup key fx.conformance_tests ≡ some tc
        → MeetsConformance runner fx key tc
    handled h key tc here =
        let ok_case = lookup-All IsConformance key tc fx.conformance_tests here valid in
        elim (Option-cases (lookup key capability_status)) [
          | inl unknown ↦ absurd (false≢true (ground (arith, ok_case.known)))
          | inr (want, known) ↦ (conformance_case-passed runner fx key want tc ok_case known).0 (
              lookup-All (Handled runner fx) key want capabilities (order.complete key want known) h
                tc here)
        ]

    met :
        (es : Map Status)
        → All (λ e. lookup e.0 capability_status ≡ some e.1) es
        → ((key : Text) (tc : ConformanceTestCase)
            → lookup key fx.conformance_tests ≡ some tc
            → MeetsConformance runner fx key tc)
        → All (Handled runner fx) es
    met [] s h = tt
    met ((key, want) ∷ es) (known, s) h = (
      λ tc here.
          (conformance_case-passed runner fx key want tc
              (lookup-All IsConformance key tc fx.conformance_tests here valid) known).1
            (h key tc here),
      met es s h,
    )

-- A fixture that was loaded passes exactly when each of its conformance tests and each of its smoke
-- tests is run and ends as it should, whatever the order in which the capabilities are visited: no
-- test is left out.
pub run_fixture_iff :
    (runner : Runner) (capabilities : Map Status) (fx : Fixture)
    → IsOrder capabilities
    → load_fixture fx ≡ ok fx
    → (all_passed (run_fixture runner capabilities fx) ≡ true) ↔ (
        ((key : Text) (tc : ConformanceTestCase)
          → lookup key fx.conformance_tests ≡ some tc
          → MeetsConformance runner fx key tc)
        × All (MeetsSmoke runner fx) fx.smoke_tests)
unfolding run_fixture
run_fixture_iff runner capabilities fx order loaded =
    let valid = ((load_fixture_iff fx fx).0 loaded).1 in
    let conf = each_capability_iff runner fx capabilities order valid.conformance in
    let results = conformance_results-passed runner fx capabilities in
    let smoke = smoke_results-passed runner fx fx.smoke_tests in
    let both =
      all_passed-append (conformance_results runner fx capabilities)
        (map (smoke_case runner fx) fx.smoke_tests) in
    (
      λ h. let (c, s) = and-true _ _ (sym both ∙ h) in (conf.0 (results.0 c), smoke.0 s),
      λ h. ground (arith, both, results.1 (conf.1 h.0), smoke.1 h.1),
    )
