-- ===== src/Images/Generate.antt =====
-- cmd/runboxctl/cmd/images/genimages.go: `runGenImages`, which writes a Dockerfile for each version and
-- merges the languages into the registry.
pub mod Merge
pub mod Starts
pub mod Dockerfile
pub mod Stable
pub mod Command
pub mod Kept
pub mod Backend
use runboxd.Base.{
  ℕ, Bool, true, false, not, ◌&&◌, Option, none, some, List, [], ◌∷◌, ◌++◌, if◌then◌else◌,
}
use runboxd.Base.Text.{Text, text, text_eq, is_empty, cut}
use runboxd.Base.Map.{Map, lookup, insert}
use runboxd.Base.Result.{Result, ok, err, ◌>>=◌}
use runboxd.ImageSpec.Types.{ImageSpec, Version}
use runboxd.Registry.Types.{Language}
use runboxd.Registry.Types as R
use runboxd.Images.Shell.{shell_join}

-- language -> version -> digest
abbrev pub Lockfile : Type 0
Lockfile = Map (Map Text)

-- `lockfile[lang][version]`, where a missing key reads as "".
abbrev text_or_empty : Option Text → Text
text_or_empty none = []
text_or_empty (some t) = t

abbrev map_or_empty : Option (Map Text) → Map Text
map_or_empty none = []
map_or_empty (some m) = m

unfoldable pub digest_of : Lockfile → Text → Text → Text
digest_of lock lang version = text_or_empty (lookup version (map_or_empty (lookup lang lock)))

-- An image specification, and the content of the wrapper script beside it, if it can be read.
pub record Entry : Type 0 where
  pub spec : ImageSpec
  pub wrapper : Option Text

pub record DockerfileData : Type 0 where
  pub base_image : Text
  pub build_cmd : Text
  pub run_cmd : List Text
  pub kind : Text
  pub setup : List Text

pub data GenError : Type 0 where
  no_digest : (lang version : Text) → GenError
  dockerfile_failed : (lang version : Text) → GenError

-- The base image of a version, pinned to a digest if there is one.
unfoldable pub pinned : Text → Text → Text
pinned digest base_image =
    if is_empty digest then base_image else (cut base_image b'@').0 ++ (b'@' ∷ digest)

unfoldable pub dockerfile_data : ImageSpec → Version → Text → DockerfileData
dockerfile_data spec version base_image = record {
  base_image = base_image;
  build_cmd = if text_eq spec.kind (text "compiled") then shell_join version.build_cmd else [];
  run_cmd = version.run_cmd;
  kind = spec.kind;
  setup = spec.setup;
}

-- `createDockerfile` for a language and a version: whether it succeeds.
abbrev pub Creates : Type 0
Creates = (lang version : Text) → DockerfileData → Bool

unfoldable pub registry_version : Text → Text → Version → R.Version
registry_version lang name version = record {
  name = name;
  image = text "runboxd-" ++ (lang ++ (b':' ∷ name));
  run_cmd = version.run_cmd;
  build_cmd = version.build_cmd;
}

-- The body of the loop over the versions.
unfoldable pub gen_version :
    Creates → Option Lockfile → ImageSpec → Text → Version → Result GenError R.Version
gen_version creates lock spec name version = elim lock [
  | none ↦
      if creates spec.name name (dockerfile_data spec version version.base_image)
      then ok (registry_version spec.name name version)
      else err (dockerfile_failed spec.name name)
  | some digests ↦
      let digest = digest_of digests spec.name name in
      if is_empty digest
      then err (no_digest spec.name name)
      else if creates spec.name name
          (dockerfile_data spec version (pinned digest version.base_image))
      then ok (registry_version spec.name name version)
      else err (dockerfile_failed spec.name name)
]

-- The loop, which enters each version into those that are kept. (It starts at the end of the list:
-- the order of a map is arbitrary.)
unfoldable pub gen_versions :
    (Text → Version → Result GenError R.Version)
    → Map Version
    → Map R.Version
    → Result GenError (Map R.Version)
gen_versions gen [] kept = ok kept
gen_versions gen ((name, version) ∷ versions) kept =
    gen_versions gen versions kept >>= λ out. gen name version >>= λ v. ok (insert name v out)

-- The versions that the registry has already and this run does not make again.
unfoldable pub untouched_versions : Map Version → Map R.Version → Map R.Version
untouched_versions made [] = []
untouched_versions made ((name, v) ∷ versions) =
    let rest = untouched_versions made versions in
    elim (lookup name made) [ none ↦ (name, v) ∷ rest | some w ↦ rest ]

abbrev pub versions_of : Option Language → Map R.Version
versions_of none = []
versions_of (some l) = l.versions

unfoldable pub new_language : ImageSpec → Map R.Version → Language
new_language spec versions = record {
  name = spec.name;
  kind = spec.kind;
  filename = spec.filename;
  default_version = spec.default_version;
  env = spec.env;
  limits = spec.limits;
  compile_limits = spec.compile_limits;
  versions = versions;
}

-- The body of the loop over the entries; one without a wrapper script is skipped.
unfoldable pub gen_entry :
    Creates → Option Lockfile → Map Language → Entry → Result GenError (Map Language)
gen_entry creates lock languages entry =
    let kept =
      untouched_versions entry.spec.versions (versions_of (lookup entry.spec.name languages)) in
    elim entry.wrapper [
      | none ↦ ok languages
      | some wrapper ↦
          gen_versions (gen_version creates lock entry.spec) entry.spec.versions kept
          >>= λ versions. ok (insert entry.spec.name (new_language entry.spec versions) languages)
    ]

unfoldable pub gen_entries :
    Creates → Option Lockfile → Map Language → List Entry → Result GenError (Map Language)
gen_entries creates lock languages [] = ok languages
gen_entries creates lock languages (entry ∷ entries) =
    gen_entry creates lock languages entry >>= λ languages'.
    gen_entries creates lock languages' entries

-- `writeIfChanged`: what the file holds afterwards, and whether it was written. A file that is not
-- there reads as empty.
pub data ReadEnd : Type 0 where
  content : Text → ReadEnd
  missing unreadable : ReadEnd

pub data WriteEnd : Type 0 where
  up_to_date written : WriteEnd
  read_failed write_failed : WriteEnd

unfoldable pub write_if_changed : ReadEnd → (works : Bool) → Text → WriteEnd
write_if_changed unreadable works new = read_failed
write_if_changed missing works new =
    if is_empty new then up_to_date else if works then written else write_failed
write_if_changed (content old) works new =
    if text_eq old new then up_to_date else if works then written else write_failed
