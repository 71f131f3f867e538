-- ===== src/ImageSpec/Load.antt =====
-- internal/imagespec/imagespec.go: `LoadFiltered`, `loadImageSpec` and `FormatMissingVersionsError`.
-- Reading a file and decoding its YAML is a parameter: `read` has for each directory what became of the
-- file image.yml in it.
pub mod Filtered
pub mod Valid
use runboxd.Base.{
  ℕ, ◌-◌, Bool, not, Option, none, some, List, [], ◌∷◌, length, take, ltb, if◌then◌else◌,
}
use runboxd.Base.Text.{Text, text_eq}
use runboxd.Base.Map.{Map, keys}
use runboxd.Base.Result.{Result, ok, err, ◌>>=◌}
use runboxd.ImageSpec.Types.{ImageSpec, LangFilter}
use runboxd.ImageSpec.Filter.{insert_sorted}
use runboxd.ImageSpec.Spec.{SpecError, validate_spec, filter_versions}

pub data SpecFile : Type 0 where
  absent_file unreadable_file unparsable_file : SpecFile
  parsed : ImageSpec → SpecFile

-- The parts of the message on versions that do not exist: the first ten, how many more there are, and
-- those that do exist.
pub record MissingVersions : Type 0 where
  pub lang : Text
  pub named : List Text
  pub more : ℕ
  pub available : List Text

pub data LoadError : Type 0 where
  read_failed parse_failed not_found unknown_language : Text → LoadError
  invalid : Text → SpecError → LoadError
  unknown_versions : MissingVersions → LoadError
  read_dir_failed : LoadError

abbrev pub max_named : ℕ
max_named = 10

unfoldable pub format_missing_versions_error : Text → List Text → List Text → MissingVersions
format_missing_versions_error lang missing available =
    if ltb max_named (length missing)
    then record {
      lang = lang;
      named = take max_named missing;
      more = length missing - max_named;
      available = available;
    }
    else record { lang = lang; named = missing; more = 0; available = available }

-- `slices.Sorted` of the keys of a map, which are different.
abbrev sorted : List Text → List Text
sorted [] = []
sorted (k ∷ ks) = insert_sorted k (sorted ks)

pub data SpecEnd : Type 0 where
  no_file : SpecEnd
  failed : LoadError → SpecEnd
  loaded : ImageSpec → SpecEnd

abbrev pub checked : Text → ImageSpec → Option SpecError → SpecEnd
checked dir spec none = loaded spec
checked dir spec (some e) = failed (invalid dir e)

unfoldable pub load_image_spec : (dir : Text) → SpecFile → SpecEnd
load_image_spec dir absent_file = no_file
load_image_spec dir unreadable_file = failed (read_failed dir)
load_image_spec dir unparsable_file = failed (parse_failed dir)
load_image_spec dir (parsed spec) = checked dir spec (validate_spec spec)

pub record Entry : Type 0 where
  pub dir : Text
  pub spec : ImageSpec

-- What the loops collect.
pub record Loading : Type 0 where
  pub entries : List Entry
  pub errs : List LoadError

abbrev pub add_entry : Text → ImageSpec → Loading → Loading
add_entry dir spec l = record {
  entries = record { dir = dir; spec = spec } ∷ l.entries;
  errs = l.errs;
}

abbrev pub add_error : LoadError → Loading → Loading
add_error e l = record { entries = l.entries; errs = e ∷ l.errs }

-- Without a filter: the names in the directory, with whether each is a directory.
abbrev pub add_found : Text → SpecEnd → Loading → Loading
add_found dir no_file l = l
add_found dir (failed e) l = add_error e l
add_found dir (loaded spec) l = add_entry dir spec l

unfoldable pub load_dirs : (read : Text → SpecFile) → Map Bool → Loading
load_dirs read [] = record { entries = []; errs = [] }
load_dirs read ((name, is_dir) ∷ files) =
    let rest = load_dirs read files in
    if not is_dir then rest else add_found name (load_image_spec name (read name)) rest

-- With a filter: `nil` and an empty list of versions ask for all of them. The test is the same in
-- `Registry.Filter`.
abbrev pub only_existing {ℓ} :
    {A : Type ℓ} → Text → Map A → Map A × List Text → Result LoadError (Map A)
only_existing lang versions (kept, []) = ok kept
only_existing lang versions (kept, v ∷ vs) =
    err (unknown_versions (format_missing_versions_error lang (v ∷ vs) (sorted (keys versions))))

unfoldable pub requested_versions {ℓ} :
    {A : Type ℓ} → Text → Map A → Option (List Text) → Result LoadError (Map A)
requested_versions lang versions none = ok versions
requested_versions lang versions (some []) = ok versions
requested_versions lang versions (some (v ∷ requested)) =
    only_existing lang versions (filter_versions versions (v ∷ requested))

abbrev pub add_filtered :
    Text → ImageSpec → Result LoadError (Map runboxd.ImageSpec.Types.Version) → Loading → Loading
add_filtered lang spec (err e) l = add_error e l
add_filtered lang spec (ok versions) l = add_entry lang (record spec { versions = versions }) l

abbrev pub add_requested : Text → Option (List Text) → SpecEnd → Loading → Loading
add_requested lang versions no_file l = add_error (not_found lang) l
add_requested lang versions (failed e) l = add_error e l
add_requested lang versions (loaded spec) l =
    add_filtered lang spec (requested_versions lang spec.versions versions) l

unfoldable pub load_langs : (read : Text → SpecFile) → LangFilter → Loading
load_langs read [] = record { entries = []; errs = [] }
load_langs read ((lang, versions) ∷ filter) =
    add_requested lang versions (load_image_spec lang (read lang)) (load_langs read filter)

abbrev pub joined : Loading → Result (List LoadError) (List Entry)
joined l = elim l.errs [ [] ↦ ok l.entries | e ∷ es ↦ err (e ∷ es) ]

-- `read_dir` is the result of `os.ReadDir`.
unfoldable pub load_filtered :
    (read_dir : Option (Map Bool))
    → (read : Text → SpecFile) → Option LangFilter
    → Result (List LoadError) (List Entry)
load_filtered read_dir read (some filter) = joined (load_langs read filter)
load_filtered none read none = err (read_dir_failed ∷ [])
load_filtered (some files) read none = joined (load_dirs read files)

unfoldable pub load :
    (read_dir : Option (Map Bool)) → (read : Text → SpecFile) → Result (List LoadError) (List Entry)
load read_dir read = load_filtered read_dir read none
