-- ===== src/Images/List.antt =====
-- cmd/runboxctl/cmd/images/list.go: `runListImages`, as the rows of its table.
use runboxd.Base.{
  Bool, false, Option, none, some, List, [], ◌∷◌, ◌++◌, ◌≡◌, refl, ap, map, if◌then◌else◌,
}
use runboxd.Base.Text.{Text, text, text_eq}
use runboxd.Base.Map.{lookup, keys}
use runboxd.Base.Sort.{sort_strings}
use runboxd.Base.Result.{Result, ok, err, ◌>>=◌}
use runboxd.ImageSpec.Types.{ImageSpec, Version, LangFilter}
use runboxd.ImageSpec.Load.{LoadError, Entry, load_filtered}
use runboxd.Images.Validate.{ImageDir, ValidateError, load_lang_filter}

pub record Row : Type 0 where
  pub language : Text
  pub version : Text
  pub default_str : Text
  pub kind : Text
  pub tests : Text
  pub base_image : Text

pub data ListError : Type 0 where
  bad_filter : ValidateError → ListError
  bad_specs : List LoadError → ListError

abbrev base_image_of : Option Version → Text
base_image_of none = []
base_image_of (some v) = v.base_image

unfoldable pub row_of : ImageSpec → (tests_exist : Bool) → Text → Row
row_of spec tests_exist name = record {
  language = spec.name;
  version = name;
  default_str = if text_eq spec.default_version name then text "*" else [];
  kind = spec.kind;
  tests = if tests_exist then text "yes" else text "no";
  base_image = base_image_of (lookup name spec.versions);
}

-- The rows of one entry. `has_tests` is whether the directory has the file of the fixture.
unfoldable pub entry_rows : (has_tests : (dir : Text) → Bool) → Entry → List Row
entry_rows has_tests e = map (row_of e.spec (has_tests e.dir)) (sort_strings (keys e.spec.versions))

unfoldable pub rows : (has_tests : (dir : Text) → Bool) → List Entry → List Row
rows has_tests [] = []
rows has_tests (e ∷ es) = entry_rows has_tests e ++ rows has_tests es

abbrev pub or_bad_specs : Result (List LoadError) (List Entry) → Result ListError (List Entry)
or_bad_specs (ok es) = ok es
or_bad_specs (err e) = err (bad_specs e)

abbrev pub or_bad_filter :
    Result ValidateError (Option LangFilter) → Result ListError (Option LangFilter)
or_bad_filter (ok f) = ok f
or_bad_filter (err e) = err (bad_filter e)

unfoldable pub run_list_images :
    ImageDir → (has_tests : (dir : Text) → Bool) → (raw : List Text) → Result ListError (List Row)
run_list_images dir has_tests raw = do
  filter ← or_bad_filter (load_lang_filter raw false)
  entries ← or_bad_specs (load_filtered dir.read_dir dir.spec_file filter)
  ok (rows has_tests entries)

map-version :
    (spec : ImageSpec) (tests_exist : Bool) (names : List Text)
    → map (λ (r : Row). r.version) (map (row_of spec tests_exist) names) ≡ names
unfolding row_of
map-version spec tests_exist [] = refl
map-version spec tests_exist (n ∷ ns) = ap (◌∷◌ n) (map-version spec tests_exist ns)

-- The rows of an entry are those of its versions, each once, in the order of their names.
entry_rows-versions :
    (has_tests : Text → Bool) (e : Entry)
    → map (λ (r : Row). r.version) (entry_rows has_tests e) ≡ sort_strings (keys e.spec.versions)
unfolding entry_rows
entry_rows-versions has_tests e = map-version e.spec (has_tests e.dir) _
