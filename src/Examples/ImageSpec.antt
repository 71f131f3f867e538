-- ===== src/Examples/ImageSpec.antt =====
-- internal/imagespec: one specification, and the values of one flag.
use runboxd.Base.{◌≡◌, refl, ◌↔◌, false, none, some, List, [], ◌∷◌}
use runboxd.Base.Int.{pos}
use runboxd.Base.Float.{finite}
use runboxd.Base.Text.{Text, text, cut, split, text_eq, text_lt}
use runboxd.Base.Map.{lookup, insert}
use runboxd.Base.Result.{ok}
use runboxd.ImageSpec.Types.{ImageSpec, LangFilter}
use runboxd.ImageSpec.Filter.{
  parse_lang_filter, parse_all, parse_one, add_versions, dedupe_lang_filter, dedupe_versions,
  version_set,
}
use runboxd.ImageSpec.Filter.Meaning.{IsAsked, lookup-parse_lang_filter, asked, requests}
use runboxd.ImageSpec.Spec.{validate_spec}
use runboxd.ImageSpec.Spec.Accepts.{validate_spec_iff, IsWellFormed}

abbrev flags : List Text
flags = text "c:2,1" ∷ text "go" ∷ text "c:,1" ∷ []

abbrev parsed : LangFilter
parsed = (text "go", none) ∷ (text "c", some (text "1" ∷ text "2" ∷ [])) ∷ []

flags_parsed : parse_lang_filter flags false ≡ ok parsed
unfolding parse_lang_filter parse_all parse_one add_versions dedupe_lang_filter dedupe_versions
    version_set cut split text_eq text_lt lookup insert
flags_parsed = refl

lookup-parse_lang_filter_example :
    IsAsked (asked (requests (text "c") flags)) (lookup (text "c") parsed)
lookup-parse_lang_filter_example = lookup-parse_lang_filter flags parsed (text "c") flags_parsed

abbrev some_versions : List Text
some_versions = text "2" ∷ [] ∷ text "1" ∷ text "2" ∷ []

abbrev pub spec : ImageSpec
spec = record {
  name = text "c";
  kind = text "compiled";
  filename = text "main.c";
  default_version = text "13";
  env = [];
  limits = record {
    min_memory_mib = pos 0;
    max_memory_mib = pos 0;
    min_timeout_seconds = pos 0;
    max_timeout_seconds = pos 0;
    max_pids = pos 0;
    max_cpus = finite false 0 (pos 0);
    workspace_size_mib = pos 0;
    tmp_size_mib = pos 0;
  };
  compile_limits = record {
    memory_mib = pos 0;
    timeout_seconds = pos 0;
    max_pids = pos 0;
    max_cpus = finite false 0 (pos 0);
    workspace_size_mib = pos 0;
    tmp_size_mib = pos 0;
  };
  setup = [];
  versions =
      (
        text "13",
        record {
          base_image = text "gcc:13";
          build_cmd = text "gcc" ∷ [];
          run_cmd = text "./a" ∷ [];
        },
      )
      ∷ [];
}

validate_spec_iff_example : (validate_spec spec ≡ none) ↔ IsWellFormed spec
validate_spec_iff_example = validate_spec_iff spec
