-- ===== src/Examples/Registry.antt =====
-- internal/imagespec and internal/registry: one language, loaded through a filter.
use runboxd.Base.{
  ℕ, Option, false, length, ◌≡◌, refl, true, none, some, List, [], ◌∷◌, All, false, length,
}
use runboxd.Base.Text.{Text, text, text_eq, member}
use runboxd.Base.Map.{lookup, insert, keys}
use runboxd.Base.Result.{ok}
use runboxd.ImageSpec.Types.{LangFilter}
use runboxd.ImageSpec.Spec.{filter_versions, filter_versions_from, validate_spec, validate_versions}
use runboxd.ImageSpec.Load.{
  SpecFile, parsed, Entry, load_image_spec, load_langs, load_filtered, requested_versions,
}
use runboxd.ImageSpec.Load.Filtered.{IsSelection, load_filtered-IsSelection}
use runboxd.ImageSpec.Load.{load_dirs}
use runboxd.ImageSpec.Load as S
use runboxd.ImageSpec.Load.Filtered.{IsWellFormedEntry}
use runboxd.LangTest.Fixture.{
  Fixture, load_fixture, validate_conformance_test_cases, validate_smoke_test_cases,
}
use runboxd.LangTest.Fixture.Accepts.{IsRunnable}
use runboxd.LangTest.Load.{absent_tests, decoded, load_tests, load_matches, load}
use runboxd.LangTest.Load as T
use runboxd.Images.Validate.{ImageDir, load_lang_filter, validate_filtered, validate}
use runboxd.Images.Validate.Checked.{validate-ok}
use runboxd.Examples.LangTest.{fixture}
use runboxd.Registry.Filter.{filter_languages, filter_registry, unknown_languages}
use runboxd.Registry.Filter.Kept.{IsKept, filter_registry-IsKept}
use runboxd.Examples.ImageSpec.{spec}
use runboxd.Examples.Images.{generated}

abbrev pub filter : LangFilter
filter = (text "c", some (text "13" ∷ [])) ∷ []

abbrev pub read : Text → SpecFile
read lang = parsed spec

abbrev pub entries : List Entry
entries = record { dir = text "c"; spec = spec } ∷ []

pub spec_loads : load_filtered none read (some filter) ≡ ok entries
unfolding load_filtered load_langs load_image_spec validate_spec validate_versions
    requested_versions filter_versions filter_versions_from lookup insert text_eq
spec_loads = refl

load_filtered-IsSelection_example : IsSelection read filter entries
load_filtered-IsSelection_example = load_filtered-IsSelection read none filter entries spec_loads

registry_filtered : filter_registry generated filter ≡ ok generated
unfolding filter_registry filter_languages unknown_languages requested_versions filter_versions
    filter_versions_from lookup insert keys member text_eq
registry_filtered = refl

filter_registry-IsKept_example :
    All (λ (name : Text). member name (keys generated) ≡ true) (keys filter)
    × ((n : Text) → IsKept (lookup n filter) (lookup n generated) (lookup n generated))
filter_registry-IsKept_example = filter_registry-IsKept filter generated generated registry_filtered

abbrev counts : ℕ × ℕ
counts = (1, 1)

abbrev no_flags : List Text
no_flags = []

abbrev image_dir : ImageDir
image_dir = record {
  read_dir = some ((text "c", true) ∷ (text "README.md", false) ∷ []);
  spec_file = read;
  glob = some ((text "c/tests.yml", decoded fixture) ∷ []);
  tests_file = λ lang. absent_tests;
}

directory_valid : validate image_dir no_flags ≡ ok counts
unfolding validate validate_filtered load_lang_filter S.load_filtered load_dirs load_image_spec
    validate_spec validate_versions T.load_filtered load load_matches load_tests load_fixture
    validate_conformance_test_cases validate_smoke_test_cases lookup text_eq
directory_valid = refl

validate-ok_example :
    (f : Option LangFilter) × (es : List Entry) × (fs : List Fixture) × (load_lang_filter no_flags
        true
      ≡ ok f)
    × (S.load_filtered image_dir.read_dir image_dir.spec_file f ≡ ok es)
    × (T.load_filtered image_dir.glob image_dir.tests_file f ≡ ok fs)
    × (counts ≡ (length es, length fs))
    × All (IsWellFormedEntry image_dir.spec_file) es
    × All IsRunnable fs
validate-ok_example = validate-ok image_dir no_flags counts directory_valid
