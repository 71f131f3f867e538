-- ===== src/Images/Validate.antt =====
-- cmd/runboxctl/cmd/images/validate.go: `runValidate`, which loads what a filter on languages asks for.
pub mod Checked
use runboxd.Base.{ℕ, Bool, true, Option, none, some, List, [], ◌∷◌, length}
use runboxd.Base.Text.{Text}
use runboxd.Base.Map.{Map}
use runboxd.Base.Result.{Result, ok, err, ◌>>=◌}
use runboxd.ImageSpec.Types.{LangFilter}
use runboxd.ImageSpec.Filter.{FilterError, parse_lang_filter}
use runboxd.ImageSpec.Load.{SpecFile, Entry}
use runboxd.ImageSpec.Load as S
use runboxd.LangTest.Fixture.{Fixture}
use runboxd.LangTest.Load.{TestsFile}
use runboxd.LangTest.Load as T

-- The directory of the specifications and fixtures.
pub record ImageDir : Type 0 where
  pub read_dir : Option (Map Bool)
  pub spec_file : Text → SpecFile
  pub glob : Option (Map TestsFile)
  pub tests_file : Text → TestsFile

pub data ValidateError : Type 0 where
  bad_filter : FilterError → ValidateError
  validation_failed : ValidateError

-- `loadLangFilter`: without a value of the flag there is no filter.
abbrev pub some_filter : Result FilterError LangFilter → Result ValidateError (Option LangFilter)
some_filter (err e) = err (bad_filter e)
some_filter (ok filter) = ok (some filter)

unfoldable pub load_lang_filter :
    List Text → (ignore_versions : Bool) → Result ValidateError (Option LangFilter)
load_lang_filter [] ignore_versions = ok none
load_lang_filter (r ∷ raw) ignore_versions =
    some_filter (parse_lang_filter (r ∷ raw) ignore_versions)

-- The numbers of the last message.
abbrev pub both_loaded :
    Result (List S.LoadError) (List Entry)
    → Result (List T.LoadError) (List Fixture)
    → Result ValidateError (ℕ × ℕ)
both_loaded (ok entries) (ok fixtures) = ok (length entries, length fixtures)
both_loaded (ok entries) (err e) = err validation_failed
both_loaded (err e) fixtures = err validation_failed

unfoldable pub validate_filtered : ImageDir → Option LangFilter → Result ValidateError (ℕ × ℕ)
validate_filtered dir filter =
    both_loaded (S.load_filtered dir.read_dir dir.spec_file filter)
      (T.load_filtered dir.glob dir.tests_file filter)

unfoldable pub validate : ImageDir → (raw : List Text) → Result ValidateError (ℕ × ℕ)
validate dir raw = load_lang_filter raw true >>= λ filter. validate_filtered dir filter
