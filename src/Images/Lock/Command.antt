-- ===== src/Images/Lock/Command.antt =====
-- cmd/runboxctl/cmd/images/genlock.go: `runGenLock` from its flags to the lock file that it leaves.
use runboxd.Base.{◌≡◌, refl, ℕ, Bool, true, false, Option, none, some, List, [], ◌∷◌, if◌then◌else◌}
use runboxd.Base.Text.{Text}
use runboxd.Base.Result.{Result, ok, err}
use runboxd.ImageSpec.Types.{ImageSpec, LangFilter}
use runboxd.ImageSpec.Load.{LoadError}
use runboxd.ImageSpec.Load as S
use runboxd.Images.Validate.{ImageDir, ValidateError, load_lang_filter}
use runboxd.Images.Generate.{Lockfile}
use runboxd.Images.Generate.Command.{LockFile, LockError, parsed, load_lockfile}
use runboxd.Images.Lock.{Inspect, gen_lock}
use runboxd.Images.Lock.Pinned.{digest_at, found_for, gen_lock-digest}

pub data GenLockError : Type 0 where
  bad_filter : ValidateError → GenLockError
  bad_specs : List LoadError → GenLockError
  lockfile_not_written : GenLockError
  -- How many digests are kept, and how many versions are left without one.
  not_refreshed : ℕ → ℕ → GenLockError

pub record LockOutside : Type 0 where
  pub image_dir : ImageDir
  pub inspect : Inspect
  -- Whether the lock file can be written, and what is left if not.
  pub lockfile_written : Bool
  pub lockfile_left : LockFile

-- An error of the load is logged only.
abbrev pub lock_or_empty : Result LockError (Option Lockfile) → Lockfile
lock_or_empty (ok (some lock)) = lock
lock_or_empty (ok none) = []
lock_or_empty (err e) = []

unfoldable pub current_lock : LockFile → Lockfile
current_lock file = lock_or_empty (load_lockfile file)

abbrev pub specs_of : List S.Entry → List ImageSpec
specs_of [] = []
specs_of (e ∷ es) = e.spec ∷ specs_of es

abbrev pub refresh_error : Option (ℕ × ℕ) → Option GenLockError
refresh_error none = none
refresh_error (some (kept, unpinned)) = some (not_refreshed kept unpinned)

unfoldable pub write_lock : LockOutside → Lockfile × Option (ℕ × ℕ) → LockFile × Option GenLockError
write_lock o made =
    if o.lockfile_written
    then (parsed (some made.0), refresh_error made.1)
    else (o.lockfile_left, some lockfile_not_written)

-- From `LoadFiltered` on.
abbrev pub lock_loaded :
    LockOutside
    → (drop_stale : Bool) → LockFile
    → Result (List LoadError) (List S.Entry)
    → LockFile × Option GenLockError
lock_loaded o drop_stale file (err es) = (file, some (bad_specs es))
lock_loaded o drop_stale file (ok entries) =
    write_lock o (gen_lock o.inspect drop_stale (current_lock file) (specs_of entries))

abbrev pub lock_filtered :
    LockOutside
    → (drop_stale : Bool) → LockFile
    → Result ValidateError (Option LangFilter)
    → LockFile × Option GenLockError
lock_filtered o drop_stale file (err e) = (file, some (bad_filter e))
lock_filtered o drop_stale file (ok filter) =
    lock_loaded o drop_stale file
      (S.load_filtered o.image_dir.read_dir o.image_dir.spec_file filter)

unfoldable pub run_gen_lock :
    LockOutside
    → (raw : List Text) → (drop_stale : Bool) → LockFile
    → LockFile × Option GenLockError
run_gen_lock o raw drop_stale file = lock_filtered o drop_stale file (load_lang_filter raw false)

-- Once the specifications are loaded and the file can be written, gen-lock leaves a lock file that holds,
-- for a version of a language, the digest that the refresh of this version found, among the specifications
-- that were loaded (with a filter only those of the filter): the one inspected now or, where that failed
-- and stale digests are not dropped, the one of the old lock file, if that could be read. Nothing else is
-- carried over from the old lock file.
pub run_gen_lock-digest :
    (o : LockOutside) (raw : List Text) (drop_stale : Bool) (file : LockFile)
    (filter : Option LangFilter) (entries : List S.Entry) (lang v : Text)
    → load_lang_filter raw false ≡ ok filter
    → S.load_filtered o.image_dir.read_dir o.image_dir.spec_file filter ≡ ok entries
    → o.lockfile_written ≡ true
    → (lock : Lockfile) × ((run_gen_lock o raw drop_stale file).0 ≡ parsed (some lock))
      × (digest_at lang v lock
          ≡ found_for o.inspect drop_stale (current_lock file) lang v (specs_of entries))
unfolding run_gen_lock write_lock
run_gen_lock-digest o raw drop_stale file filter entries lang v filtered loaded written =
    let curr = current_lock file in
    (
      (gen_lock o.inspect drop_stale curr (specs_of entries)).0,
      rw (filtered, loaded, written) refl,
      gen_lock-digest o.inspect drop_stale curr lang v (specs_of entries),
    )
