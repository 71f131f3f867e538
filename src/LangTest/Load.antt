-- ===== src/LangTest/Load.antt =====
-- internal/langtest/fixture.go: `LoadFiltered` and `Load`. `read` has for each language what became of
-- the file tests.yml in its directory, and a glob has it for each match.
pub mod Runnable
use runboxd.Base.{Option, none, some, List, [], ◌∷◌}
use runboxd.Base.Text.{Text}
use runboxd.Base.Map.{Map}
use runboxd.Base.Result.{Result, ok, err}
use runboxd.ImageSpec.Types.{LangFilter}
use runboxd.LangTest.Fixture.{Fixture, FixtureError, load_fixture}

pub data TestsFile : Type 0 where
  absent_tests unreadable_tests unparsable_tests : TestsFile
  decoded : Fixture → TestsFile

pub data LoadError : Type 0 where
  glob_failed : LoadError
  read_failed parse_failed : Text → LoadError
  invalid : Text → FixtureError → LoadError

pub data TestsEnd : Type 0 where
  no_tests : TestsEnd
  failed : LoadError → TestsEnd
  loaded : Fixture → TestsEnd

abbrev pub checked : Text → Result FixtureError Fixture → TestsEnd
checked path (err e) = failed (invalid path e)
checked path (ok f) = loaded f

-- `LoadFixture` with the file as it is read.
unfoldable pub load_tests : (path : Text) → TestsFile → TestsEnd
load_tests path absent_tests = no_tests
load_tests path unreadable_tests = failed (read_failed path)
load_tests path unparsable_tests = failed (parse_failed path)
load_tests path (decoded f) = checked path (load_fixture f)

pub record Loading : Type 0 where
  pub fixtures : List Fixture
  pub errs : List LoadError

-- A language without tests is skipped; a match of the glob that is gone is an error.
abbrev pub add_tests : (gone : List LoadError) → TestsEnd → Loading → Loading
add_tests [] no_tests l = l
add_tests (e ∷ es) no_tests l = record { fixtures = l.fixtures; errs = e ∷ l.errs }
add_tests gone (failed e) l = record { fixtures = l.fixtures; errs = e ∷ l.errs }
add_tests gone (loaded f) l = record { fixtures = f ∷ l.fixtures; errs = l.errs }

unfoldable pub load_matches : Map TestsFile → Loading
load_matches [] = record { fixtures = []; errs = [] }
load_matches ((path, file) ∷ matches) =
    add_tests (read_failed path ∷ []) (load_tests path file) (load_matches matches)

unfoldable pub load_langs : (read : Text → TestsFile) → LangFilter → Loading
load_langs read [] = record { fixtures = []; errs = [] }
load_langs read ((lang, versions) ∷ filter) =
    add_tests [] (load_tests lang (read lang)) (load_langs read filter)

abbrev pub joined : List LoadError → List Fixture → Result (List LoadError) (List Fixture)
joined [] fixtures = ok fixtures
joined (e ∷ es) fixtures = err (e ∷ es)

-- `glob` is the result of `filepath.Glob` on the directory.
unfoldable pub load : (glob : Option (Map TestsFile)) → Result (List LoadError) (List Fixture)
load none = err (glob_failed ∷ [])
load (some matches) = joined (load_matches matches).errs (load_matches matches).fixtures

unfoldable pub load_filtered :
    (glob : Option (Map TestsFile))
    → (read : Text → TestsFile) → Option LangFilter
    → Result (List LoadError) (List Fixture)
load_filtered glob read none = load glob
load_filtered glob read (some filter) =
    joined (load_langs read filter).errs (load_langs read filter).fixtures
