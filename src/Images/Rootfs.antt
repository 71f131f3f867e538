-- ===== src/Images/Rootfs.antt =====
-- cmd/runboxctl/cmd/images/exportrootfs.go: one version's pass of `runExportRootFS`, with
-- `dirExistsAndNotEmpty`. As in Images/Build.antt an image is known by the build directory it was made
-- from. The container that is removed at the end is not modelled.
pub mod Ready
pub mod Command
pub mod Exported
use runboxd.Base.{
  Bool, true, false, not, ◌&&◌, ◌||◌, Option, none, some, List, [], ◌∷◌, if◌then◌else◌,
}
use runboxd.Base.Text.{Text, text, text_eq, trim_space}
use runboxd.Images.Generate.{ReadEnd, content, missing, unreadable}
use runboxd.Images.Build.{BuildDir, context_hash}

-- What is in the destination: the file system of an image, if all of it was unpacked, other files that
-- an export left there, and the mount points made afterwards.
pub record Tree : Type 0 where
  pub unpacked : Option BuildDir
  pub scraps : Bool
  pub dirs : List Text
  pub devices : List Text

pub data Dest : Type 0 where
  gone not_a_dir : Dest
  tree : Tree → Dest

abbrev pub empty_tree : Tree
empty_tree = record { unpacked = none; scraps = false; dirs = []; devices = [] }

abbrev pub is_nil : List Text → Bool
is_nil [] = true
is_nil (x ∷ xs) = false

abbrev pub is_some : Option BuildDir → Bool
is_some none = false
is_some (some image) = true

unfoldable pub dir_exists_and_not_empty : Dest → Bool
dir_exists_and_not_empty gone = false
dir_exists_and_not_empty not_a_dir = false
dir_exists_and_not_empty (tree t) =
    is_some t.unpacked || t.scraps || not (is_nil t.dirs) || not (is_nil t.devices)

pub data ExportError : Type 0 where
  no_context not_removed not_made not_created : ExportError
  not_exported no_mount_dir no_device digest_not_written : ExportError

-- The version's rootfs directory and its digest file.
pub record Rootfs : Type 0 where
  pub dest : Dest
  pub digest : ReadEnd

-- How the calls of `exportRootfs` end: `docker export` and `tar`, which reads what it writes.
pub record PipeEnds : Type 0 where
  pub piped : Bool
  pub export_started : Bool
  pub tar_started : Bool
  pub export_succeeded : Bool
  pub tar_succeeded : Bool

pub data PipeCall : Type 0 where
  start_export start_tar kill_export wait_export wait_tar : PipeCall

pub data PipeError : Type 0 where
  not_piped export_not_started tar_not_started export_failed tar_failed : PipeError

-- The calls that are made, and the error.
unfoldable pub export_rootfs : PipeEnds → List PipeCall × Option PipeError
export_rootfs p =
    if not p.piped
    then ([], some not_piped)
    else if not p.export_started
    then (start_export ∷ [], some export_not_started)
    else if not p.tar_started
    then (start_export ∷ start_tar ∷ kill_export ∷ wait_export ∷ [], some tar_not_started)
    else if not p.export_succeeded
    then (start_export ∷ start_tar ∷ wait_export ∷ [], some export_failed)
    else if not p.tar_succeeded
    then (start_export ∷ start_tar ∷ wait_export ∷ wait_tar ∷ [], some tar_failed)
    else (start_export ∷ start_tar ∷ wait_export ∷ wait_tar ∷ [], none)

unfoldable pub is_exported : PipeEnds → Bool
is_exported p = elim (export_rootfs p).1 [ none ↦ true | some e ↦ false ]

-- How the calls of a pass end, with what those that fail leave.
pub record ExportEnds : Type 0 where
  pub removed : Bool
  pub not_removed_left : Dest
  pub made : Bool
  pub container_made : Bool
  pub pipe : PipeEnds
  pub not_exported_left : Tree
  pub dir_made : Text → Bool
  pub device_made : Text → Bool
  pub digest_written : Bool
  pub digest_left : ReadEnd

abbrev pub mount_dirs : List Text
mount_dirs = text "sandbox" ∷ text "tmp" ∷ text "build" ∷ text "input" ∷ []

abbrev pub device_files : List Text
device_files = text "null" ∷ text "zero" ∷ text "urandom" ∷ []

-- The two loops that make the mount points stop at the first that fails: those made, and whether all
-- were.
unfoldable pub make_each : (Text → Bool) → List Text → List Text × Bool
make_each works [] = ([], true)
make_each works (name ∷ names) =
    let rest = make_each works names in if works name then (name ∷ rest.0, rest.1) else ([], false)

abbrev pub mounted : BuildDir → List Text → List Text → Dest
mounted image dirs devices =
    tree (record { unpacked = some image; scraps = false; dirs = dirs; devices = devices })

-- From the export of the container on.
unfoldable pub fill : Text → ExportEnds → BuildDir → ReadEnd → Rootfs × Option ExportError
fill hash ends image digest =
    let dirs = make_each ends.dir_made mount_dirs in
    let devices = make_each ends.device_made device_files in
    if not (is_exported ends.pipe)
    then (record { dest = tree ends.not_exported_left; digest = digest }, some not_exported)
    else if not dirs.1
    then (record { dest = mounted image dirs.0 []; digest = digest }, some no_mount_dir)
    else if not devices.1
    then (record { dest = mounted image dirs.0 devices.0; digest = digest }, some no_device)
    else if not ends.digest_written
    then (
      record { dest = mounted image dirs.0 devices.0; digest = ends.digest_left },
      some digest_not_written,
    )
    else (record { dest = mounted image dirs.0 devices.0; digest = content hash }, none)

-- `docker create` needs the image, which is not to be had elsewhere.
abbrev pub created : Text → ExportEnds → Option BuildDir → ReadEnd → Rootfs × Option ExportError
created hash ends none digest =
    (record { dest = tree empty_tree; digest = digest }, some not_created)
created hash ends (some image) digest =
    if ends.container_made
    then fill hash ends image digest
    else (record { dest = tree empty_tree; digest = digest }, some not_created)

unfoldable pub export_tree :
    Text → ExportEnds → (image : Option BuildDir) → Rootfs → Rootfs × Option ExportError
export_tree hash ends image r =
    if not ends.removed
    then (record { dest = ends.not_removed_left; digest = r.digest }, some not_removed)
    else if not ends.made
    then (record { dest = gone; digest = r.digest }, some not_made)
    else created hash ends image r.digest

unfoldable pub digest_matches : ReadEnd → Text → Bool
digest_matches (content existing) hash = text_eq (trim_space existing) hash
digest_matches missing hash = false
digest_matches unreadable hash = false

abbrev pub export_hashed :
    Option Text
    → (force : Bool) → ExportEnds
    → (image : Option BuildDir) → Rootfs
    → Rootfs × Option ExportError
export_hashed none force ends image r = (r, some no_context)
export_hashed (some hash) force ends image r =
    if not force && (digest_matches r.digest hash && dir_exists_and_not_empty r.dest)
    then (r, none)
    else export_tree hash ends image r

unfoldable pub export_version :
    (Text → Text)
    → (force : Bool) → BuildDir
    → ExportEnds
    → (image : Option BuildDir) → Rootfs
    → Rootfs × Option ExportError
export_version sha256 force dir ends image r =
    export_hashed (context_hash sha256 dir) force ends image r
