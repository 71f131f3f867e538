-- ===== src/Registry/Filter.antt =====
-- internal/registry/registry.go: `Filter` and `LoadFiltered`.
pub mod Kept
use runboxd.Base.{Bool, Option, none, some, List, [], ◌∷◌, ◌++◌, if◌then◌else◌}
use runboxd.Base.Text.{Text, member}
use runboxd.Base.Map.{Map, lookup, insert, keys}
use runboxd.Base.Result.{Result, ok, err, ◌>>=◌}
use runboxd.ImageSpec.Types.{LangFilter}
use runboxd.ImageSpec.Load.{LoadError, unknown_language, requested_versions}
use runboxd.Registry.Types.{Language, Version}

-- `newLanguages` and the errors so far. (`langsSeen` is the set of the languages of the registry that
-- the filter names.)
pub record Filtering : Type 0 where
  pub new_languages : Map Language
  pub errs : List LoadError

abbrev pub with_versions : Text → Language → Result LoadError (Map Version) → Filtering → Filtering
with_versions lang_name lang (err e) f = record {
  new_languages = f.new_languages;
  errs = e ∷ f.errs;
}
with_versions lang_name lang (ok versions) f = record {
  new_languages = insert lang_name (record lang { versions = versions }) f.new_languages;
  errs = f.errs;
}

abbrev pub filter_language : Option (Option (List Text)) → Text → Language → Filtering → Filtering
filter_language none lang_name lang f = f
filter_language (some request) lang_name lang f =
    with_versions lang_name lang (requested_versions lang_name lang.versions request) f

unfoldable pub filter_languages : LangFilter → Map Language → Filtering
filter_languages filter [] = record { new_languages = []; errs = [] }
filter_languages filter ((lang_name, lang) ∷ languages) =
    filter_language (lookup lang_name filter) lang_name lang (filter_languages filter languages)

-- The second loop: the languages of the filter that were not seen.
unfoldable pub unknown_languages : Map Language → LangFilter → List LoadError
unknown_languages languages [] = []
unknown_languages languages ((lang_name, versions) ∷ filter) =
    let rest = unknown_languages languages filter in
    if member lang_name (keys languages) then rest else unknown_language lang_name ∷ rest

abbrev pub new_registry : List LoadError → Map Language → Result (List LoadError) (Map Language)
new_registry [] languages = ok languages
new_registry (e ∷ es) languages = err (e ∷ es)

unfoldable pub filter_registry : Map Language → LangFilter → Result (List LoadError) (Map Language)
filter_registry languages filter =
    let f = filter_languages filter languages in
    new_registry (f.errs ++ unknown_languages languages filter) f.new_languages

-- `loaded` is the result of `Load`, which reads and decodes the file.
unfoldable pub load_filtered :
    (loaded : Result (List LoadError) (Map Language))
    → Option LangFilter
    → Result (List LoadError) (Map Language)
load_filtered loaded none = loaded
load_filtered loaded (some filter) = loaded >>= λ languages. filter_registry languages filter
