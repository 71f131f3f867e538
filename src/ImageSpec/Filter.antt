-- ===== src/ImageSpec/Filter.antt =====
-- internal/imagespec/imagespec.go: `ParseLangFilter`, which reads the values of the flag `--lang`.
pub mod Meaning
pub mod Versions
use runboxd.Base.{
  ℕ, ◌≡◌, refl, Bool, true, false, Option, none, some, List, [], ◌∷◌, ◌++◌, ltb, if◌then◌else◌,
  length, take,
}
use runboxd.Base.Text.{Text, text, text_eq, text_lt, is_empty, cut, split}
use runboxd.Base.Map.{Map, lookup, insert}
use runboxd.Base.Result.{Result, ok, err, ◌>>=◌}
use runboxd.ImageSpec.Types.{LangFilter}

abbrev pub max_raw_filter_length : ℕ
max_raw_filter_length = 100

pub data FilterError : Type 0 where
  too_long : Text → FilterError  -- the first bytes of the value
  empty_language : Text → FilterError

-- The `switch` of the loop: what one more request for a language makes of the versions so far.
unfoldable pub add_versions : Option (Option (List Text)) → Text → Option (List Text)
add_versions current version_str = if is_empty version_str then none else elim current [
  | some none ↦ none
  | some (some versions) ↦ some (versions ++ split version_str b',')
  | none ↦ some (split version_str b',')
]

-- One round of the loop of `ParseLangFilter`. (`filter[lang] = nil` is written also where it is nil.)
unfoldable pub parse_one : Bool → LangFilter → Text → Result FilterError LangFilter
parse_one ignore_versions filter r =
    let (lang, version_str) = cut r b':' in
    if ltb max_raw_filter_length (length r)
    then err (too_long (take max_raw_filter_length r))
    else if is_empty lang
    then err (empty_language r)
    else if ignore_versions
    then ok (insert lang none filter)
    else ok (insert lang (add_versions (lookup lang filter) version_str) filter)

unfoldable pub parse_all : Bool → LangFilter → List Text → Result FilterError LangFilter
parse_all ignore_versions filter [] = ok filter
parse_all ignore_versions filter (r ∷ raw) =
    parse_one ignore_versions filter r >>= λ filter'. parse_all ignore_versions filter' raw

-- Into a set that is kept in order: `slices.Sorted(maps.Keys(versionSet))`.
unfoldable pub insert_sorted : Text → List Text → List Text
insert_sorted v [] = v ∷ []
insert_sorted v (w ∷ ws) =
    if text_eq v w then w ∷ ws else if text_lt v w then v ∷ w ∷ ws else w ∷ insert_sorted v ws

unfoldable pub version_set : List Text → List Text
unfolding insert_sorted
version_set [] = []
version_set (v ∷ vs) = if is_empty v then version_set vs else insert_sorted v (version_set vs)

-- A list without versions asks for all of them.
abbrev nil_if_empty : List Text → Option (List Text)
nil_if_empty [] = none
nil_if_empty (v ∷ vs) = some (v ∷ vs)

unfoldable pub dedupe_versions : Option (List Text) → Option (List Text)
dedupe_versions none = none
dedupe_versions (some versions) = nil_if_empty (version_set versions)

unfoldable pub dedupe_lang_filter : LangFilter → LangFilter
dedupe_lang_filter [] = []
dedupe_lang_filter ((lang, versions) ∷ filter) =
    insert lang (dedupe_versions versions) (dedupe_lang_filter filter)

unfoldable pub parse_lang_filter : List Text → Bool → Result FilterError LangFilter
parse_lang_filter raw ignore_versions = parse_all ignore_versions [] raw >>= λ filter.
    ok (if ignore_versions then filter else dedupe_lang_filter filter)
