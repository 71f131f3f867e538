-- ===== src/Images/Rootfs/Command.antt =====
-- cmd/runboxctl/cmd/images/exportrootfs.go: `runExportRootFS` over all versions that its filter asks
-- for.
use runboxd.Base.{Bool, false, Option, none, some, List, ◌++◌}
use runboxd.Base.Text.{Text, text}
use runboxd.Base.Map.{Map}
use runboxd.Base.Result.{Result, ok, err}
use runboxd.Registry.Types.{Language}
use runboxd.Registry.Filter.{load_filtered}
use runboxd.ImageSpec.Types.{LangFilter}
use runboxd.ImageSpec.Load.{LoadError}
use runboxd.Images.Validate.{ValidateError, load_lang_filter}
use runboxd.Images.Group.{Target, targets, run_group, put}
use runboxd.Images.Build.{BuildDir}
use runboxd.Images.Rootfs.{Rootfs, ExportEnds, ExportError, export_version}

-- The file systems under the rootfs directory, with their digest files, by the path from there.
abbrev pub Exports : Type 0
Exports = Text → Rootfs

-- The directories of the versions, the images by their tags, and how the calls of a pass end.
pub record Outside : Type 0 where
  pub build_dir : (entry version : Text) → BuildDir
  pub images : Text → Option BuildDir
  pub ends : (entry version : Text) → ExportEnds

abbrev pub dest : Target → Text
dest t = t.entry ++ (text "/" ++ t.version.name)

-- The goroutine of one version.
unfoldable pub export_target :
    (Text → Text) → (force : Bool) → Outside → Target → Exports → Exports × Option ExportError
export_target sha256 force o t s =
    let e =
      export_version sha256 force (o.build_dir t.entry t.version.name)
        (o.ends t.entry t.version.name) (o.images t.version.image) (s (dest t)) in
    (put (dest t) e.0 s, e.1)

pub data CommandError : Type 0 where
  bad_filter : ValidateError → CommandError
  no_registry : List LoadError → CommandError
  not_exported : ExportError → CommandError

abbrev pub with_error : Exports × Option ExportError → Exports × Option CommandError
with_error (s, none) = (s, none)
with_error (s, some e) = (s, some (not_exported e))

-- `order` is the order in which the goroutines run.
abbrev pub export_languages :
    (Text → Text)
    → (force : Bool) → Outside
    → (order : List Target → List Target) → Exports
    → Result (List LoadError) (Map Language)
    → Exports × Option CommandError
export_languages sha256 force o order s (err es) = (s, some (no_registry es))
export_languages sha256 force o order s (ok languages) =
    with_error (run_group (export_target sha256 force o) (order (targets languages)) s)

abbrev pub export_filtered :
    (Text → Text)
    → (force : Bool) → Outside
    → (order : List Target → List Target) → (loaded : Result (List LoadError) (Map Language))
    → Exports
    → Result ValidateError (Option LangFilter)
    → Exports × Option CommandError
export_filtered sha256 force o order loaded s (err e) = (s, some (bad_filter e))
export_filtered sha256 force o order loaded s (ok filter) =
    export_languages sha256 force o order s (load_filtered loaded filter)

-- `loaded` is the registry as its file has it.
unfoldable pub run_export_rootfs :
    (Text → Text)
    → (force : Bool) → Outside
    → (order : List Target → List Target) → (loaded : Result (List LoadError) (Map Language))
    → (raw : List Text) → Exports
    → Exports × Option CommandError
run_export_rootfs sha256 force o order loaded raw s =
    export_filtered sha256 force o order loaded s (load_lang_filter raw false)
