-- ===== src/Examples/Images.antt =====
-- cmd/runboxctl/cmd/images: one language with one version.
use runboxd.Base.{inl, arith, ◌≡◌, refl, Bool, true, false, none, some, List, [], ◌∷◌}
use runboxd.Base.Text.{Text, text, text_eq, trim_space}
use runboxd.Base.Map.{Map}
use runboxd.Registry.Types.{Language}
use runboxd.Examples.ImageSpec.{spec}
use runboxd.Images.Shell.{shell_join}
use runboxd.Images.Shell.Words.{shell_words, between, shell_words-shell_join}
use runboxd.Images.Generate.{Lockfile, Entry, content, missing}
use runboxd.Sandbox.Limits.{validate_lang_limits, resolve_lang_limits}
use runboxd.Sandbox.Limits.Resolve.{accepted_iff}
use runboxd.Images.Lock.{Inspect}
use runboxd.Images.Build.{BuildDir, context_hash, BuildEnds}
use runboxd.Images.Rootfs.{
  is_exported, export_rootfs, gone, tree, empty_tree, Rootfs, ExportEnds, export_version,
  digest_matches, dir_exists_and_not_empty, not_exported,
}
use runboxd.Images.Rootfs.Ready.{export_version-skips_partial}

abbrev command : List Text
command = text "it's" ∷ [] ∷ text "a b" ∷ []

shell_words-shell_join_example : shell_words between [] (shell_join command) ≡ some command
shell_words-shell_join_example = shell_words-shell_join command

abbrev entry : Entry
entry = record { spec = spec; wrapper = some (text "#!/bin/sh") }

abbrev pub generated : Map Language
generated =
    (
      text "c",
      record {
        name = spec.name;
        kind = spec.kind;
        filename = spec.filename;
        default_version = spec.default_version;
        env = spec.env;
        limits = spec.limits;
        compile_limits = spec.compile_limits;
        versions =
            (
              text "13",
              record {
                name = text "13";
                image = text "runboxd-c:13";
                run_cmd = text "./a" ∷ [];
                build_cmd = text "gcc" ∷ [];
              },
            )
            ∷ [];
      },
    )
    ∷ []

pub limits_resolve : validate_lang_limits (resolve_lang_limits spec.limits) ≡ none
limits_resolve =
    (accepted_iff 0 0 0 0 0 0 0 spec.limits.max_cpus (record {
      min_seconds = omega arith;
      max_seconds = omega arith;
      min_mib = omega arith;
      max_mib = omega arith;
      workspace_mib = omega arith;
      tmp_mib = omega arith;
      cpus = inl refl;
    })).1
      (omega arith, omega arith)

abbrev pub no_network : Inspect
no_network base_image = none

abbrev pub old_lock : Lockfile
old_lock = (text "c", (text "13", text "sha256:1") ∷ []) ∷ []

abbrev pub hash : Text → Text
hash t = t

abbrev pub dir : BuildDir
dir = record { dockerfile = some (text "FROM"); wrapper = some (text "sh") }

abbrev pub build_ends : BuildEnds
build_ends = record {
  inspected = false;
  built = true;
  cache_dir_made = true;
  hash_written = true;
  hash_left = missing;
}

abbrev pub ends : Bool → ExportEnds
ends exported = record {
  removed = true;
  not_removed_left = gone;
  made = true;
  container_made = true;
  pipe = record {
    piped = true;
    export_started = true;
    tar_started = true;
    export_succeeded = exported;
    tar_succeeded = true;
  };
  not_exported_left = record { unpacked = none; scraps = true; dirs = []; devices = [] };
  dir_made = λ name. true;
  device_made = λ name. true;
  digest_written = true;
  digest_left = missing;
}

abbrev pub no_rootfs : Rootfs
no_rootfs = record { dest = gone; digest = missing }

abbrev exported_before : Rootfs
exported_before = record { dest = tree empty_tree; digest = content (text "FROMsh") }

hashed : context_hash hash dir ≡ some (text "FROMsh")
unfolding context_hash
hashed = refl

matches : digest_matches exported_before.digest (text "FROMsh") ≡ true
unfolding digest_matches trim_space text_eq
matches = refl

left : dir_exists_and_not_empty (tree (ends false).not_exported_left) ≡ true
unfolding dir_exists_and_not_empty
left = refl

abbrev broken : Rootfs
broken = record { dest = tree (ends false).not_exported_left; digest = content (text "FROMsh") }

pipe_fails : is_exported (ends false).pipe ≡ false
unfolding is_exported export_rootfs
pipe_fails = refl

export_version-skips_partial_example :
    (export_version hash true dir (ends false) (some dir) exported_before
      ≡ (broken, some not_exported))
    × (export_version hash false dir (ends true) (some dir) broken ≡ (broken, none))
export_version-skips_partial_example =
    export_version-skips_partial hash dir (ends false) (ends true) (text "FROMsh") dir
      exported_before hashed matches (refl, refl, refl, pipe_fails) left
