-- ===== src/Images/Build/Command.antt =====
-- cmd/runboxctl/cmd/images/buildimages.go: `runBuildImages` over all versions that its filter asks for.
use runboxd.Base.{Bool, true, false, ◌&&◌, Option, none, some, List, ◌++◌}
use runboxd.Base.Text.{Text, text}
use runboxd.Base.Map.{Map}
use runboxd.Base.Result.{Result, ok, err}
use runboxd.Registry.Types.{Language}
use runboxd.Registry.Filter.{load_filtered}
use runboxd.ImageSpec.Types.{LangFilter}
use runboxd.ImageSpec.Load.{LoadError}
use runboxd.Images.Validate.{ValidateError, load_lang_filter}
use runboxd.Images.Generate.{ReadEnd}
use runboxd.Images.Group.{Target, targets, run_group, put}
use runboxd.Images.Build.{BuildDir, BuildState, BuildEnds, BuildError, build_version}

-- The hash files by their names and the images by their tags.
pub record Host : Type 0 where
  pub hash_files : Text → ReadEnd
  pub images : Text → Option BuildDir

-- The directories of the versions, and how the calls of their passes end.
pub record Outside : Type 0 where
  pub build_dir : (entry version : Text) → BuildDir
  pub ends : (entry version : Text) → BuildEnds

abbrev pub hash_file_name : Target → Text
hash_file_name t = t.entry ++ (text "-" ++ (t.version.name ++ text ".hash"))

abbrev pub dir_of : Outside → Target → BuildDir
dir_of o t = o.build_dir t.entry t.version.name

abbrev pub is_some {ℓ} : {X : Type ℓ} → Option X → Bool
is_some none = false
is_some (some x) = true

-- `docker inspect` succeeds only where the tag has an image.
abbrev pub ends_in : Outside → Target → Host → BuildEnds
ends_in o t s =
    let e = o.ends t.entry t.version.name in
    record e { inspected = e.inspected && is_some (s.images t.version.image) }

abbrev pub view : Target → Host → BuildState
view t s = record { hash_file = s.hash_files (hash_file_name t); image = s.images t.version.image }

-- The goroutine of one version.
unfoldable pub build_target :
    (Text → Text) → (no_cache : Bool) → Outside → Target → Host → Host × Option BuildError
build_target sha256 no_cache o t s =
    let e = build_version sha256 no_cache (dir_of o t) (ends_in o t s) (view t s) in
    (
      record {
        hash_files = put (hash_file_name t) e.0.hash_file s.hash_files;
        images = put t.version.image e.0.image s.images;
      },
      e.1,
    )

pub data CommandError : Type 0 where
  bad_filter : ValidateError → CommandError
  no_registry : List LoadError → CommandError
  not_built : BuildError → CommandError

abbrev pub with_error : Host × Option BuildError → Host × Option CommandError
with_error (s, none) = (s, none)
with_error (s, some e) = (s, some (not_built e))

-- `order` is the order in which the goroutines run.
abbrev pub build_languages :
    (Text → Text)
    → (no_cache : Bool) → Outside
    → (order : List Target → List Target) → Host
    → Result (List LoadError) (Map Language)
    → Host × Option CommandError
build_languages sha256 no_cache o order s (err es) = (s, some (no_registry es))
build_languages sha256 no_cache o order s (ok languages) =
    with_error (run_group (build_target sha256 no_cache o) (order (targets languages)) s)

abbrev pub build_filtered :
    (Text → Text)
    → (no_cache : Bool) → Outside
    → (order : List Target → List Target) → (loaded : Result (List LoadError) (Map Language)) → Host
    → Result ValidateError (Option LangFilter)
    → Host × Option CommandError
build_filtered sha256 no_cache o order loaded s (err e) = (s, some (bad_filter e))
build_filtered sha256 no_cache o order loaded s (ok filter) =
    build_languages sha256 no_cache o order s (load_filtered loaded filter)

-- `loaded` is the registry as its file has it.
unfoldable pub run_build_images :
    (Text → Text)
    → (no_cache : Bool) → Outside
    → (order : List Target → List Target) → (loaded : Result (List LoadError) (Map Language))
    → (raw : List Text) → Host
    → Host × Option CommandError
run_build_images sha256 no_cache o order loaded raw s =
    build_filtered sha256 no_cache o order loaded s (load_lang_filter raw false)
