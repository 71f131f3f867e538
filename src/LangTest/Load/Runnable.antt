-- ===== src/LangTest/Load/Runnable.antt =====
-- internal/langtest/fixture.go: the fixtures that are loaded can be run.
use runboxd.Base.{◌≡◌, refl, sym, subst, Option, none, some, List, [], ◌∷◌, All}
use runboxd.Base.Text.{Text}
use runboxd.Base.Map.{Map}
use runboxd.Base.Result.{Result, ok, err}
use runboxd.ImageSpec.Types.{LangFilter}
use runboxd.LangTest.Fixture.{Fixture, FixtureError, load_fixture}
use runboxd.LangTest.Fixture.Accepts.{IsRunnable, load_fixture_iff}
use runboxd.LangTest.Load.{
  TestsFile, absent_tests, unreadable_tests, unparsable_tests, decoded, LoadError, TestsEnd,
  no_tests, failed, loaded, checked, load_tests, Loading, add_tests, load_matches, load_langs,
  joined, load, load_filtered,
}

checked-loaded :
    (path : Text) (r : Result FixtureError Fixture) (g : Fixture)
    → checked path r ≡ loaded g
    → r ≡ ok g
checked-loaded path (err e) g h = absurd (cc)
checked-loaded path (ok f) g h = cc

load_tests-IsRunnable :
    (path : Text) (file : TestsFile) (g : Fixture) → load_tests path file ≡ loaded g → IsRunnable g
unfolding load_tests
load_tests-IsRunnable path absent_tests g h = absurd (cc)
load_tests-IsRunnable path unreadable_tests g h = absurd (cc)
load_tests-IsRunnable path unparsable_tests g h = absurd (cc)
load_tests-IsRunnable path (decoded f) g h =
    let (same, runnable) = (load_fixture_iff f g).0 (checked-loaded path (load_fixture f) g h) in
    subst IsRunnable (sym same) runnable

add_tests-IsRunnable :
    (gone : List LoadError) (end : TestsEnd) (l : Loading)
    → ((g : Fixture) → end ≡ loaded g → IsRunnable g)
    → All IsRunnable l.fixtures
    → All IsRunnable (add_tests gone end l).fixtures
add_tests-IsRunnable [] no_tests l runs all = all
add_tests-IsRunnable (e ∷ es) no_tests l runs all = all
add_tests-IsRunnable [] (failed e) l runs all = all
add_tests-IsRunnable (e' ∷ es) (failed e) l runs all = all
add_tests-IsRunnable [] (loaded f) l runs all = (runs f refl, all)
add_tests-IsRunnable (e ∷ es) (loaded f) l runs all = (runs f refl, all)

load_matches-IsRunnable : (matches : Map TestsFile) → All IsRunnable (load_matches matches).fixtures
unfolding load_matches
load_matches-IsRunnable [] = tt
load_matches-IsRunnable ((path, file) ∷ matches) =
    add_tests-IsRunnable (_ ∷ []) (load_tests path file) (load_matches matches)
      (load_tests-IsRunnable path file) (load_matches-IsRunnable matches)

load_langs-IsRunnable :
    (read : Text → TestsFile) (filter : LangFilter)
    → All IsRunnable (load_langs read filter).fixtures
unfolding load_langs
load_langs-IsRunnable read [] = tt
load_langs-IsRunnable read ((lang, versions) ∷ filter) =
    add_tests-IsRunnable [] (load_tests lang (read lang)) (load_langs read filter)
      (load_tests-IsRunnable lang (read lang)) (load_langs-IsRunnable read filter)

joined-IsRunnable :
    (es : List LoadError) (fs out : List Fixture)
    → All IsRunnable fs
    → joined es fs ≡ ok out
    → All IsRunnable out
joined-IsRunnable [] fs out all h = let same : fs ≡ out = cc in subst (All IsRunnable) same all
joined-IsRunnable (e ∷ es) fs out all h = absurd (cc)

pub load_filtered-IsRunnable :
    (glob : Option (Map TestsFile)) (read : Text → TestsFile) (filter : Option LangFilter)
    (out : List Fixture)
    → load_filtered glob read filter ≡ ok out
    → All IsRunnable out
unfolding load_filtered load
load_filtered-IsRunnable none read none out h = absurd (cc)
load_filtered-IsRunnable (some matches) read none out h =
    joined-IsRunnable (load_matches matches).errs (load_matches matches).fixtures out
      (load_matches-IsRunnable matches) h
load_filtered-IsRunnable glob read (some filter) out h =
    joined-IsRunnable (load_langs read filter).errs (load_langs read filter).fixtures out
      (load_langs-IsRunnable read filter) h
