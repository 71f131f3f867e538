-- ===== src/Images/Validate/Checked.antt =====
-- cmd/runboxctl/cmd/images/validate.go: what a validation that succeeds has checked.
use runboxd.Base.{ℕ, ◌≡◌, refl, Option, List, length, All, true}
use runboxd.Base.Text.{Text}
use runboxd.Base.Result.{Result, ok, err, >>=-eq-ok}
use runboxd.ImageSpec.Types.{LangFilter}
use runboxd.ImageSpec.Load.{SpecFile, parsed, Entry, load_image_spec}
use runboxd.ImageSpec.Load as S
use runboxd.ImageSpec.Load.Filtered.{IsWellFormedEntry, load_filtered-IsWellFormedEntry}
use runboxd.LangTest.Fixture.{Fixture}
use runboxd.LangTest.Fixture.Accepts.{IsRunnable}
use runboxd.LangTest.Load as T
use runboxd.LangTest.Load.Runnable.{load_filtered-IsRunnable}
use runboxd.Images.Validate.{ImageDir, both_loaded, load_lang_filter, validate_filtered, validate}

both_loaded-ok :
    (entries : Result (List S.LoadError) (List Entry))
    (fixtures : Result (List T.LoadError) (List Fixture)) (counts : ℕ × ℕ)
    → both_loaded entries fixtures ≡ ok counts
    → (es : List Entry) × (fs : List Fixture) × (entries ≡ ok es)
      × (fixtures ≡ ok fs)
      × (counts ≡ (length es, length fs))
both_loaded-ok (ok es) (ok fs) counts h = (es, fs, refl, refl, cc)
both_loaded-ok (ok es) (err e) counts h = absurd (cc)
both_loaded-ok (err e) fixtures counts h = absurd (cc)

-- Where the validation succeeds it counts specifications and fixtures that were loaded for the same
-- filter: every specification is well-formed and from the directory of its entry, and every fixture can
-- be run.
pub validate-ok :
    (dir : ImageDir) (raw : List Text) (counts : ℕ × ℕ)
    → validate dir raw ≡ ok counts
    → (filter : Option LangFilter) × (es : List Entry) × (fs : List Fixture) × (load_lang_filter raw
          true
        ≡ ok filter)
      × (S.load_filtered dir.read_dir dir.spec_file filter ≡ ok es)
      × (T.load_filtered dir.glob dir.tests_file filter ≡ ok fs)
      × (counts ≡ (length es, length fs))
      × All (IsWellFormedEntry dir.spec_file) es
      × All IsRunnable fs
unfolding validate validate_filtered
validate-ok dir raw counts h =
    let (filter, parsed_filter, rest) =
      >>=-eq-ok (load_lang_filter raw true) (λ f. validate_filtered dir f) h in
    let (es, fs, entries, fixtures, same) =
      both_loaded-ok (S.load_filtered dir.read_dir dir.spec_file filter)
        (T.load_filtered dir.glob dir.tests_file filter) counts rest in
    (
      filter,
      es,
      fs,
      parsed_filter,
      entries,
      fixtures,
      same,
      load_filtered-IsWellFormedEntry dir.spec_file dir.read_dir filter es entries,
      load_filtered-IsRunnable dir.glob dir.tests_file filter fs fixtures,
    )
