-- ===== src/LangTest/Fixture/Accepts.antt =====
-- internal/langtest/fixture.go: which fixtures are loaded.
use runboxd.Base.{
  Bool-cases, not-false, not-false_of, ◌&&◌, ℕ, suc, ◌≡◌, refl, ◌↔◌, ◌⊎◌, inl, inr, Bool, true,
  false, Option, none, some, List, [], ◌∷◌, arith, All, first_error, first_error-none,
  none-first_error,
}
use runboxd.Base.Int.{pos, ◌<ℤ◌, leb_ℤ-false, gt-leb_ℤ}
use runboxd.Base.Text.{Text, text, text_eq, text_eq_iff, is_empty}
use runboxd.Base.Map.{Map, lookup}
use runboxd.Base.Result.{ok}
use runboxd.LangTest.Fixture.{
  ConformanceTestCase, SmokeTestCase, Fixture, capability_status, smoke_status, is_known,
  conformance_checks, or_next, validate_conformance_test_cases, smoke_checks,
  validate_smoke_test_cases, load_fixture,
}

-- A conformance test that can be run: of a known capability, with the bound that this one needs.
pub record IsConformance (entry : Text × ConformanceTestCase) : Type 0 where
  pub known : is_known (lookup entry.0 capability_status) ≡ true
  pub has_source : is_empty entry.1.source ≡ false
  pub bounds_memory : entry.0 ≡ text "oom" → pos 0 <ℤ entry.1.memory_bytes
  pub bounds_time : entry.0 ≡ text "timeout" → pos 0 <ℤ entry.1.timeout_ms
  pub names_stderr : entry.0 ≡ text "fs_escape" → is_empty entry.1.want_stderr_contains ≡ false

pub record IsSmoke (tc : SmokeTestCase) : Type 0 where
  pub named : is_empty tc.name ≡ false
  pub has_source : is_empty tc.source ≡ false
  pub known_status :
      (is_empty tc.want_status ≡ true) ⊎ (is_known (lookup tc.want_status smoke_status) ≡ true)

or_next-none {ℓ} : {A : Type ℓ} (a b : Option A) → (or_next a b ≡ none) ↔ ((a ≡ none) × (b ≡ none))
or_next-none none b = (λ h. (refl, h), λ h. h.1)
or_next-none (some e) b = (λ h. cc, λ h. cc)

-- A test that counts for one key only.
pub for_key_iff : (s t : Text) (b : Bool) → ((text_eq s t && b) ≡ false) ↔ (s ≡ t → b ≡ false)
for_key_iff s t b = (
  λ h e. ground (arith, text_eq_iff s t),
  λ h. elim (Bool-cases (text_eq s t)) [
    | inl same ↦ ground (arith, h ((text_eq_iff s t).0 same))
    | inr other ↦ ground arith
  ],
)

conformance_checks_iff :
    (key : Text) (tc : ConformanceTestCase)
    → (first_error (conformance_checks key tc) ≡ none) ↔ IsConformance (key, tc)
conformance_checks_iff key tc = (checked, valid)
  where
    checked : first_error (conformance_checks key tc) ≡ none → IsConformance (key, tc)
    checked h =
        let (k, r1) = first_error-none (conformance_checks key tc) h in
        let (s, r2) = r1 in
        let (m, r3) = r2 in
        let (t, r4) = r3 in
        let (e, r5) = r4 in
        record {
          known = not-false _ k;
          has_source = s;
          bounds_memory =
              λ q. leb_ℤ-false tc.memory_bytes (pos 0) ((for_key_iff key (text "oom") _).0 m q);
          bounds_time =
              λ q. leb_ℤ-false tc.timeout_ms (pos 0) ((for_key_iff key (text "timeout") _).0 t q);
          names_stderr = (for_key_iff key (text "fs_escape") _).0 e;
        }

    valid : IsConformance (key, tc) → first_error (conformance_checks key tc) ≡ none
    valid c = none-first_error (conformance_checks key tc) (
      not-false_of _ c.known,
      (
        c.has_source,
        (
          (for_key_iff key (text "oom") _).1
              (λ q. gt-leb_ℤ tc.memory_bytes (pos 0) (c.bounds_memory q)),
          (
            (for_key_iff key (text "timeout") _).1
                (λ q. gt-leb_ℤ tc.timeout_ms (pos 0) (c.bounds_time q)),
            ((for_key_iff key (text "fs_escape") _).1 c.names_stderr, tt),
          ),
        ),
      ),
    )

validate-IsConformance_iff :
    (cases : Map ConformanceTestCase)
    → (validate_conformance_test_cases cases ≡ none) ↔ All IsConformance cases
unfolding validate_conformance_test_cases
validate-IsConformance_iff [] = (λ h. tt, λ h. refl)
validate-IsConformance_iff ((key, tc) ∷ cases) = (
  λ h.
      let (here, rest) = (or_next-none _ _).0 h in
      ((conformance_checks_iff key tc).0 here, (validate-IsConformance_iff cases).0 rest),
  λ h.
      (or_next-none _ _).1
        ((conformance_checks_iff key tc).1 h.0, (validate-IsConformance_iff cases).1 h.1),
)

smoke_checks_iff :
    (i : ℕ) (tc : SmokeTestCase) → (first_error (smoke_checks i tc) ≡ none) ↔ IsSmoke tc
smoke_checks_iff i tc = (
  λ h. record { named = ground arith; has_source = ground arith; known_status = ground arith },
  λ c. ground (arith, c.named, c.has_source, c.known_status),
)

validate-IsSmoke_iff :
    (i : ℕ) (cases : List SmokeTestCase)
    → (validate_smoke_test_cases i cases ≡ none) ↔ All IsSmoke cases
unfolding validate_smoke_test_cases
validate-IsSmoke_iff i [] = (λ h. tt, λ h. refl)
validate-IsSmoke_iff i (tc ∷ cases) = (
  λ h.
      let (here, rest) = (or_next-none _ _).0 h in
      ((smoke_checks_iff i tc).0 here, (validate-IsSmoke_iff (suc i) cases).0 rest),
  λ h.
      (or_next-none _ _).1
        ((smoke_checks_iff i tc).1 h.0, (validate-IsSmoke_iff (suc i) cases).1 h.1),
)

-- A fixture whose tests can all be run.
pub record IsRunnable (f : Fixture) : Type 0 where
  pub conformance : All IsConformance f.conformance_tests
  pub smoke : All IsSmoke f.smoke_tests

-- A file that decodes is loaded, unchanged, exactly when all of its tests can be run: the conformance
-- tests are of known capabilities and have the bounds that these need, the smoke tests are named and
-- want a known status.
pub load_fixture_iff : (f g : Fixture) → (load_fixture f ≡ ok g) ↔ ((g ≡ f) × IsRunnable f)
unfolding load_fixture
load_fixture_iff f g = (loaded, runnable)
  where
    loaded : load_fixture f ≡ ok g → (g ≡ f) × IsRunnable f
    loaded h =
        let (c, s) =
          (or_next-none (validate_conformance_test_cases f.conformance_tests)
              (validate_smoke_test_cases 0 f.smoke_tests)).0
            (ground arith) in
        (
          ground arith,
          record {
            conformance = (validate-IsConformance_iff f.conformance_tests).0 c;
            smoke = (validate-IsSmoke_iff 0 f.smoke_tests).0 s;
          },
        )

    runnable : (g ≡ f) × IsRunnable f → load_fixture f ≡ ok g
    runnable (e, r) = ground (
      arith,
      (validate-IsConformance_iff f.conformance_tests).1 r.conformance,
      (validate-IsSmoke_iff 0 f.smoke_tests).1 r.smoke,
    )
