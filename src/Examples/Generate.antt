-- ===== src/Examples/Generate.antt =====
-- cmd/runboxctl/cmd/images: runs of gen-images for one version and for all, and of gen-lock.
use runboxd.Base.{◌≡◌, refl, ap, Option, true, false, none, some, List, [], ◌∷◌, ◌++◌, All}
use runboxd.Base.Text.{Text, text, text_eq, text_lt, cut, split}
use runboxd.Base.Map.{Map, lookup, insert}
use runboxd.Base.Result.{ok}
use runboxd.Registry.Types.{Language}
use runboxd.ImageSpec.Spec.{validate_spec, validate_versions, filter_versions, filter_versions_from}
use runboxd.ImageSpec.Filter.{
  parse_lang_filter, parse_all, parse_one, add_versions, dedupe_lang_filter, dedupe_versions,
  version_set, insert_sorted,
}
use runboxd.ImageSpec.Load.{
  load_filtered, load_dirs, load_langs, load_image_spec, requested_versions,
}
use runboxd.LangTest.Load.{absent_tests}
use runboxd.Images.Validate.{ImageDir, load_lang_filter}
use runboxd.Images.Generate.{
  DockerfileData, content, missing, gen_entries, gen_entry, gen_versions, gen_version,
  untouched_versions, new_language, registry_version, write_if_changed,
}
use runboxd.Images.Generate.Merge.{version_at, touches}
use runboxd.Images.Generate.Dockerfile.{
  Format, OutDir, CreateEnds, create_dockerfile, write_files, write_wrapper, dockerfile,
}
use runboxd.Images.Generate.Stable.{IsStable, create_dockerfile-IsStable}
use runboxd.Images.Generate.Command.{
  Outside, RegistryFile, bad_file, holds, no_file, not_named, parsed, with_wrappers, gen_registry,
  start_registry, lockfile_data, run_gen_images,
}
use runboxd.Images.Generate.Backend.{run_gen_images-starts}
use runboxd.Sandbox.Factory.{Load, DockerSandbox, on_docker, by_value, image_available, new}
use runboxd.Sandbox.Docker.Reaper.{ensure_image}
use runboxd.Config.{docker}
use runboxd.Registry.Types as R
use runboxd.Examples.Backend.{docker_host, nsjail_host}
use runboxd.Images.Lock.Pinned.{digest_at, found_for}
use runboxd.Images.Lock.Command.{
  LockOutside, current_lock, specs_of, run_gen_lock, run_gen_lock-digest,
}
use runboxd.Images.Generate.{Lockfile}
use runboxd.Images.Generate.Kept.{run_gen_images-keeps}
use runboxd.Examples.Run.{language}
use runboxd.Examples.Registry.{filter, read, entries, spec_loads}
use runboxd.Examples.Images.{hash, limits_resolve, no_network, old_lock}

abbrev image_dir : ImageDir
image_dir = record {
  read_dir = none;
  spec_file = read;
  glob = none;
  tests_file = λ lang. absent_tests;
}

abbrev go_language : Language
go_language = record language { name = text "go" }

abbrev before : Map Language
before = (text "go", go_language) ∷ []

abbrev outside : Outside
outside = record {
  image_dir = image_dir;
  wrapper = λ dir. some (text "#!/bin/sh");
  creates = λ lang version data_. true;
  lockfile = not_named;
  registry_written = true;
  registry_left = no_file;
}

abbrev flags : List Text
flags = text "c:13" ∷ []

flags_parsed : load_lang_filter flags false ≡ ok (some filter)
unfolding load_lang_filter parse_lang_filter parse_all parse_one add_versions dedupe_lang_filter
    dedupe_versions version_set insert_sorted cut split text_eq text_lt lookup insert
flags_parsed = refl

go_untouched :
    All (λ e. touches (text "go") (text "13") e ≡ false) (with_wrappers outside.wrapper entries)
unfolding text_eq
go_untouched = (refl, tt)

run_ends : (run_gen_images outside flags (holds before)).1 ≡ none
unfolding run_gen_images gen_registry start_registry lockfile_data load_lang_filter
    parse_lang_filter parse_all parse_one add_versions dedupe_lang_filter dedupe_versions
    version_set insert_sorted cut split text_eq text_lt lookup insert load_filtered load_langs
    load_image_spec validate_spec validate_versions requested_versions filter_versions
    filter_versions_from gen_entries gen_entry gen_versions gen_version untouched_versions
    new_language registry_version
run_ends = refl

run_gen_images-keeps_example :
    (out : Map Language) × ((run_gen_images outside flags (holds before)).0 ≡ holds out)
    × (version_at (text "go") (text "13") out ≡ version_at (text "go") (text "13") before)
run_gen_images-keeps_example =
    run_gen_images-keeps outside flags filter entries before (text "go") (text "13") flags_parsed
      spec_loads go_untouched run_ends

abbrev format : Format
format = record { quote = λ t. text "\"" ++ (t ++ text "\""); json = λ words. some (text "[]") }

abbrev data_of : DockerfileData
data_of = record {
  base_image = text "gcc:13";
  build_cmd = text "'gcc'";
  run_cmd = text "./a" ∷ [];
  kind = text "compiled";
  setup = text "true" ∷ [];
}

abbrev create_ends : CreateEnds
create_ends = record {
  dir_made = true;
  dockerfile_written = true;
  dockerfile_left = missing;
  wrapper_written = true;
  wrapper_left = missing;
}

-- No write succeeds.
abbrev read_only : CreateEnds
read_only = record create_ends { dockerfile_written = false; wrapper_written = false }

abbrev new_dir : OutDir
new_dir = record { dockerfile_file = content (text "FROM gcc:12"); wrapper_file = missing }

created : (create_dockerfile format data_of (text "#!/bin/sh") create_ends new_dir).1 ≡ none
unfolding create_dockerfile write_files write_wrapper write_if_changed dockerfile text_eq
created = refl

create_dockerfile-IsStable_example :
    IsStable hash format data_of
      (text "#!/bin/sh")
      read_only
      new_dir
      (create_dockerfile format data_of (text "#!/bin/sh") create_ends new_dir).0
create_dockerfile-IsStable_example =
    create_dockerfile-IsStable hash format data_of (text "#!/bin/sh") read_only new_dir create_ends
      refl refl created

abbrev directory : Outside
directory = record outside {
  image_dir = record image_dir {
    read_dir = some ((text "c", true) ∷ (text "README.md", false) ∷ []);
  };
}

directory_loads : load_filtered directory.image_dir.read_dir read none ≡ ok entries
unfolding load_filtered load_dirs load_image_spec validate_spec validate_versions lookup text_eq
directory_loads = refl

directory_ends : (run_gen_images directory [] bad_file).1 ≡ none
unfolding run_gen_images gen_registry start_registry lockfile_data load_lang_filter load_filtered
    load_dirs load_image_spec validate_spec validate_versions lookup text_eq gen_entries gen_entry
    gen_versions gen_version untouched_versions new_language registry_version insert
directory_ends = refl

abbrev registry_of : RegistryFile → Option (Map Language)
registry_of (holds languages) = some languages
registry_of no_file = none
registry_of bad_file = none

abbrev load : Load
load path = registry_of (run_gen_images directory [] bad_file).0

always_available : (v : R.Version) → image_available docker_host v ≡ true
unfolding ensure_image
always_available v = refl

run_gen_images-starts_example :
    (sb : DockerSandbox) × ((new load docker_host nsjail_host none
        (by_value (docker (text "registry.json")))).result
      ≡ ok (on_docker sb))
run_gen_images-starts_example =
    run_gen_images-starts directory bad_file entries load docker_host nsjail_host none
      (text "registry.json") directory_loads (limits_resolve, tt) directory_ends
      (λ out written. ap registry_of written) refl always_available

abbrev lock_outside : LockOutside
lock_outside = record {
  image_dir = image_dir;
  inspect = no_network;
  lockfile_written = true;
  lockfile_left = not_named;
}

run_gen_lock-digest_example :
    (lock : Lockfile) × ((run_gen_lock lock_outside flags false (parsed (some old_lock))).0
      ≡ parsed (some lock))
    × (digest_at (text "c") (text "13") lock
        ≡ found_for no_network false
            (current_lock (parsed (some old_lock)))
            (text "c")
            (text "13")
            (specs_of entries))
run_gen_lock-digest_example =
    run_gen_lock-digest lock_outside flags false (parsed (some old_lock)) (some filter) entries
      (text "c") (text "13") flags_parsed spec_loads refl
