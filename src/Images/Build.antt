-- ===== src/Images/Build.antt =====
-- cmd/runboxctl/cmd/images/buildimages.go and `contextHash` of utils.go: one version's pass of
-- `runBuildImages`. An image is known by the build directory docker made it from; what docker does
-- with the directory is not modelled, nor is a directory that changes while a pass runs.
pub mod Cached
pub mod Command
pub mod Fresh
use runboxd.Base.{Bool, true, false, not, ◌&&◌, Option, none, some, [], ◌++◌, if◌then◌else◌}
use runboxd.Base.Text.{Text, text_eq, is_empty}
use runboxd.Images.Generate.{ReadEnd, content, missing, unreadable}

-- The two files of the directory that are read, none where reading fails.
pub record BuildDir : Type 0 where
  pub dockerfile : Option Text
  pub wrapper : Option Text

-- `sha256` stands for the hexadecimal digest of crypto/sha256.
unfoldable pub context_hash : (sha256 : Text → Text) → BuildDir → Option Text
context_hash sha256 dir = elim dir.dockerfile [
  | none ↦ none
  | some d ↦ elim dir.wrapper [ none ↦ none | some w ↦ some (sha256 (d ++ w)) ]
]

pub data BuildError : Type 0 where
  hash_unreadable no_context build_failed : BuildError
  no_cache_dir hash_not_written : BuildError

-- The hash file of the version and the image of its tag.
pub record BuildState : Type 0 where
  pub hash_file : ReadEnd
  pub image : Option BuildDir

-- How what a pass calls ends: `docker inspect`, `docker build`, the cache directory, the write of the
-- hash file and, where that fails, what it leaves there.
pub record BuildEnds : Type 0 where
  pub inspected : Bool
  pub built : Bool
  pub cache_dir_made : Bool
  pub hash_written : Bool
  pub hash_left : ReadEnd

unfoldable pub should_build_image : (inspected : Bool) → Text → Text → Bool
should_build_image inspected new_hash curr_hash =
    if text_eq new_hash curr_hash then not inspected else true

-- The pass from `docker build` on.
unfoldable pub build_image :
    BuildDir → Text → BuildEnds → BuildState → BuildState × Option BuildError
build_image dir new_hash ends s =
    if not ends.built
    then (s, some build_failed)
    else if not ends.cache_dir_made
    then (record { hash_file = s.hash_file; image = some dir }, some no_cache_dir)
    else if not ends.hash_written
    then (record { hash_file = ends.hash_left; image = some dir }, some hash_not_written)
    else (record { hash_file = content new_hash; image = some dir }, none)

-- `currHash` is empty where there is no hash file.
abbrev pub curr_hash : ReadEnd → Text
curr_hash (content h) = h
curr_hash missing = []
curr_hash unreadable = []

-- A file that is not there is no error.
abbrev pub is_unreadable : ReadEnd → Bool
is_unreadable unreadable = true
is_unreadable (content h) = false
is_unreadable missing = false

abbrev pub build_version_of :
    Option Text
    → (no_cache : Bool) → BuildDir
    → BuildEnds
    → BuildState
    → BuildState × Option BuildError
build_version_of none no_cache dir ends s = (s, some no_context)
build_version_of (some new_hash) no_cache dir ends s =
    let curr = curr_hash s.hash_file in
    if not no_cache && not (is_empty curr) && not (should_build_image ends.inspected new_hash curr)
    then (s, none)
    else build_image dir new_hash ends s

unfoldable pub build_version :
    (Text → Text)
    → (no_cache : Bool) → BuildDir
    → BuildEnds
    → BuildState
    → BuildState × Option BuildError
build_version sha256 no_cache dir ends s =
    if is_unreadable s.hash_file
    then (s, some hash_unreadable)
    else build_version_of (context_hash sha256 dir) no_cache dir ends s
