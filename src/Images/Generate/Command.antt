-- ===== src/Images/Generate/Command.antt =====
-- cmd/runboxctl/cmd/images/genimages.go: `runGenImages` from its flags to the registry it writes, and
-- `LoadLockfile` of internal/imagespec/imagespec.go. Whether `createDockerfile` succeeds for a version
-- is an argument here; Images/Generate/Dockerfile has what it does.
use runboxd.Base.{Bool, false, Option, none, some, List, [], ◌∷◌, if◌then◌else◌}
use runboxd.Base.Text.{Text}
use runboxd.Base.Map.{Map}
use runboxd.Base.Result.{Result, ok, err, ◌>>=◌}
use runboxd.ImageSpec.Types.{LangFilter}
use runboxd.ImageSpec.Load.{LoadError}
use runboxd.ImageSpec.Load as S
use runboxd.Registry.Types.{Language}
use runboxd.Images.Validate.{ImageDir, ValidateError, load_lang_filter}
use runboxd.Images.Generate.{Lockfile, Entry, GenError, Creates, gen_entries}

-- The lock file as the flag and the disk have it. A file without a document decodes to the nil map,
-- which is none.
pub data LockFile : Type 0 where
  not_named absent unreadable unparsable : LockFile
  parsed : Option Lockfile → LockFile

pub data LockError : Type 0 where
  not_read not_parsed : LockError

-- `LoadLockfile`, on a file that is named.
unfoldable pub load_lockfile : LockFile → Result LockError (Option Lockfile)
load_lockfile not_named = err not_read
load_lockfile absent = err not_read
load_lockfile unreadable = err not_read
load_lockfile unparsable = err not_parsed
load_lockfile (parsed lock) = ok lock

-- Without a lock file no digests are put into the Dockerfiles.
unfoldable pub lockfile_data : LockFile → Result LockError (Option Lockfile)
lockfile_data not_named = ok none
lockfile_data absent = ok none
lockfile_data unreadable = load_lockfile unreadable
lockfile_data unparsable = load_lockfile unparsable
lockfile_data (parsed lock) = load_lockfile (parsed lock)

-- The file of the registry; one that has no languages has an empty map of them.
pub data RegistryFile : Type 0 where
  no_file bad_file : RegistryFile
  holds : Map Language → RegistryFile

pub data CommandError : Type 0 where
  bad_filter : ValidateError → CommandError
  bad_lockfile : LockError → CommandError
  bad_specs : List LoadError → CommandError
  bad_registry registry_not_written : CommandError
  not_generated : GenError → CommandError

-- A run with a filter starts from the registry that is there.
unfoldable pub start_registry :
    Option LangFilter → RegistryFile → Result CommandError (Map Language)
start_registry none file = ok []
start_registry (some filter) no_file = ok []
start_registry (some filter) bad_file = err bad_registry
start_registry (some filter) (holds languages) = ok languages

abbrev pub or_error {ℓ} :
    {E : Type 0} {A : Type ℓ} → (E → CommandError) → Result E A → Result CommandError A
or_error f (ok a) = ok a
or_error f (err e) = err (f e)

-- The entries with the scripts in their directories.
abbrev pub with_wrappers : (Text → Option Text) → List S.Entry → List Entry
with_wrappers wrapper [] = []
with_wrappers wrapper (e ∷ es) =
    record { spec = e.spec; wrapper = wrapper e.dir } ∷ with_wrappers wrapper es

pub record Outside : Type 0 where
  pub image_dir : ImageDir
  pub wrapper : (dir : Text) → Option Text
  pub creates : Creates
  pub lockfile : LockFile
  -- Whether the registry can be written, and what is left if not.
  pub registry_written : Bool
  pub registry_left : RegistryFile

-- The new registry.
unfoldable pub gen_registry :
    Outside → (raw : List Text) → RegistryFile → Result CommandError (Map Language)
gen_registry o raw file = do
  filter ← or_error bad_filter (load_lang_filter raw false)
  lock ← or_error bad_lockfile (lockfile_data o.lockfile)
  entries ← or_error bad_specs (S.load_filtered o.image_dir.read_dir o.image_dir.spec_file filter)
  languages ← start_registry filter file
  or_error not_generated (gen_entries o.creates lock languages (with_wrappers o.wrapper entries))

abbrev pub write_registry :
    Outside → RegistryFile → Result CommandError (Map Language) → RegistryFile × Option CommandError
write_registry o file (err e) = (file, some e)
write_registry o file (ok languages) =
    if o.registry_written
    then (holds languages, none)
    else (o.registry_left, some registry_not_written)

unfoldable pub run_gen_images :
    Outside → (raw : List Text) → RegistryFile → RegistryFile × Option CommandError
run_gen_images o raw file = write_registry o file (gen_registry o raw file)
