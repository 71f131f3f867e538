-- ===== src/Sandbox/Nsjail/Config/MountPoints.antt =====
-- internal/sandbox/nsjail.go and cmd/runboxctl/cmd/images/exportrootfs.go: the places that nsjail mounts
-- something on, and those that an exported root file system has.
use runboxd.Base.{
  if_both, if◌then◌else◌, ◌≡◌, refl, Bool, true, ◌&&◌, List, [], ◌∷◌, ◌++◌, map, arith,
}
use runboxd.Base.Text.{Text, text, text_eq, is_empty, member}
use runboxd.Base.Map.{Map}
use runboxd.Sandbox.Workspace.{AbsPath}
use runboxd.Sandbox.Nsjail.Config.{NsjailCfgData}
use runboxd.Sandbox.Nsjail.Template.{
  Line, field, uidmap, gidmap, envar, mount, exec_bin, limit_lines, rlimit_lines, cgroup_lines,
  env_lines, build_lines, nsjail_cfg, first_lines, file_lines, bind_lines, last_lines,
}
use runboxd.Images.Rootfs.{mount_dirs}

-- The directories of an exported tree: those that export-rootfs makes, and /proc, which
-- Docker puts into the file system of every container that it exports.
abbrev pub exported_dirs : List Text
exported_dirs = text "proc" ∷ mount_dirs

-- The root, and the directories of a tree below it.
abbrev pub has_mount_point : List Text → Text → Bool
has_mount_point dirs dst = member dst (text "/" ∷ map (λ d. text "/" ++ d) dirs)

-- `mount_proc` mounts on /proc.
abbrev pub mounts_on : List Text → Line → Bool
mounts_on dirs (mount m) = has_mount_point dirs m.dst
mounts_on dirs (field key value) =
    if text_eq key (text "mount_proc") then has_mount_point dirs (text "/proc") else true
mounts_on dirs (uidmap inside outside) = true
mounts_on dirs (gidmap inside outside) = true
mounts_on dirs (envar name value) = true
mounts_on dirs (exec_bin program args) = true

abbrev pub all_mount_on : List Text → List Line → Bool
all_mount_on dirs [] = true
all_mount_on dirs (l ∷ ls) = mounts_on dirs l && all_mount_on dirs ls

all_mount_on-append :
    (dirs : List Text) (xs ys : List Line)
    → all_mount_on dirs (xs ++ ys) ≡ (all_mount_on dirs xs && all_mount_on dirs ys)
all_mount_on-append dirs [] ys = refl
all_mount_on-append dirs (x ∷ xs) ys = ground (arith, all_mount_on-append dirs xs ys)

all_mount_on-env_lines :
    (dirs : List Text) (env : Map Text) → all_mount_on dirs (env_lines env) ≡ true
all_mount_on-env_lines dirs [] = refl
all_mount_on-env_lines dirs ((name, value) ∷ env) = all_mount_on-env_lines dirs env

all_mount_on-limit_lines :
    (dirs : List Text) (d : NsjailCfgData) → all_mount_on dirs (limit_lines d) ≡ true
unfolding text_eq
all_mount_on-limit_lines dirs d =
    if_both (λ ls. all_mount_on dirs ls ≡ true) (is_empty d.cgroup_mount) (rlimit_lines d)
      (cgroup_lines d) (λ unset. refl) (λ set. refl)

all_mount_on-build_lines :
    (build : List AbsPath) → all_mount_on exported_dirs (build_lines build) ≡ true
unfolding member text_eq
all_mount_on-build_lines [] = refl
all_mount_on-build_lines (dir ∷ dirs) = refl

all_mount_on-bind_lines : (d : NsjailCfgData) → all_mount_on exported_dirs (bind_lines d) ≡ true
unfolding member text_eq
all_mount_on-bind_lines d = all_mount_on-build_lines d.build_dir

all_mount_on-last_lines : (d : NsjailCfgData) → all_mount_on exported_dirs (last_lines d) ≡ true
unfolding member text_eq
all_mount_on-last_lines d = refl

-- Whatever its data, a configuration mounts only on the root, on /proc and on directories that
-- export-rootfs makes in every root file system it finishes.
pub nsjail_cfg-mount_dirs : (d : NsjailCfgData) → all_mount_on exported_dirs (nsjail_cfg d) ≡ true
unfolding nsjail_cfg member text_eq
nsjail_cfg-mount_dirs d = ground (
  arith,
  all_mount_on-append exported_dirs (first_lines d)
      (file_lines d ++ (bind_lines d ++ last_lines d)),
  all_mount_on-append exported_dirs (file_lines d) (bind_lines d ++ last_lines d),
  all_mount_on-append exported_dirs (bind_lines d) (last_lines d),
  all_mount_on-limit_lines exported_dirs d,
  all_mount_on-env_lines exported_dirs d.env,
  all_mount_on-bind_lines d,
  all_mount_on-last_lines d,
)
