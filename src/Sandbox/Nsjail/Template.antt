-- ===== src/Sandbox/Nsjail/Template.antt =====
-- internal/sandbox/nsjail.go: `nsjailCfgTmpl`, the text of the configuration as its lines. How
-- `strconv.Quote` and the decimal numbers are written is not modelled.
use runboxd.Base.{Bool, true, false, List, [], ◌∷◌, ◌++◌, if◌then◌else◌}
use runboxd.Base.Int.{ℤ, pos}
use runboxd.Base.Text.{Text, text, is_empty}
use runboxd.Base.Map.{Map}
use runboxd.Sandbox.Workspace.{AbsPath}
use runboxd.Sandbox.Nsjail.Config.{NsjailCfgData}

pub data Value : Type 0 where
  word quoted : Text → Value
  path : AbsPath → Value
  number : ℤ → Value

-- Mounts are read-only unless `rw` is set.
pub record Mount : Type 0 where
  pub src : List AbsPath
  pub dst : Text
  pub fstype : Text
  pub size : List ℤ
  pub is_bind : Bool
  pub rw : Bool
  pub noexec : Bool
  pub nosuid : Bool
  pub nodev : Bool

pub data Line : Type 0 where
  field : (key : Text) → Value → Line
  uidmap gidmap : (inside outside : Text) → Line
  envar : (name value : Text) → Line
  mount : Mount → Line
  exec_bin : (program : Text) → (args : List Text) → Line

abbrev read_only : AbsPath → Text → Line
read_only src dst = mount (record {
  src = src ∷ [];
  dst = dst;
  fstype = [];
  size = [];
  is_bind = true;
  rw = false;
  noexec = false;
  nosuid = false;
  nodev = false;
})

-- "/build", which programs are run from.
abbrev build_mount : AbsPath → Line
build_mount src = mount (record {
  src = src ∷ [];
  dst = text "/build";
  fstype = [];
  size = [];
  is_bind = true;
  rw = true;
  noexec = false;
  nosuid = true;
  nodev = true;
})

abbrev tmpfs_mount : Text → ℤ → (nosuid nodev : Bool) → Line
tmpfs_mount dst size nosuid nodev = mount (record {
  src = [];
  dst = dst;
  fstype = text "tmpfs";
  size = size ∷ [];
  is_bind = false;
  rw = true;
  noexec = true;
  nosuid = nosuid;
  nodev = nodev;
})

-- The two ways in which memory and processes are limited.
abbrev pub cgroup_lines : NsjailCfgData → List Line
cgroup_lines d =
    field (text "use_cgroupv2") (word (text "true"))
    ∷ field (text "cgroupv2_mount") (quoted d.cgroup_mount)
    ∷ field (text "cgroup_mem_max") (number d.cgroup_mem_max)
    ∷ field (text "cgroup_mem_swap_max") (number (pos 0))
    ∷ field (text "cgroup_pids_max") (number d.cgroup_pids_max)
    ∷ field (text "cgroup_cpu_ms_per_sec") (number d.cgroup_cpu_ms_per_sec)
    ∷ field (text "rlimit_as_type") (word (text "INF"))
    ∷ []

abbrev pub rlimit_lines : NsjailCfgData → List Line
rlimit_lines d =
    field (text "rlimit_as") (number d.mem_mb)
    ∷ field (text "rlimit_nproc") (number d.max_pids)
    ∷ field (text "rlimit_nproc_type") (word (text "VALUE"))
    ∷ []

abbrev pub limit_lines : NsjailCfgData → List Line
limit_lines d = if is_empty d.cgroup_mount then rlimit_lines d else cgroup_lines d

abbrev pub env_lines : Map Text → List Line
env_lines [] = []
env_lines ((name, value) ∷ env) = envar name value ∷ env_lines env

abbrev pub build_lines : List AbsPath → List Line
build_lines [] = []
build_lines (dir ∷ dirs) = build_mount dir ∷ []

-- The four parts of the template, at its ends of lists.
abbrev pub first_lines : NsjailCfgData → List Line
first_lines d =
    field (text "mode") (word (text "ONCE"))
    ∷ field (text "cwd") (quoted (text "/sandbox"))
    ∷ field (text "mount_proc") (word (text "true"))
    ∷ uidmap d.uid []
    ∷ gidmap d.gid []
    ∷ field (text "time_limit") (number d.timeout_sec)
    ∷ limit_lines d

abbrev pub file_lines : NsjailCfgData → List Line
file_lines d =
    field (text "rlimit_fsize") (number (pos d.fsize_mb))
    ∷ field (text "rlimit_nofile") (number (pos d.nofile))
    ∷ field (text "log_file") (path d.log_path)
    ∷ env_lines d.env

abbrev pub bind_lines : NsjailCfgData → List Line
bind_lines d =
    read_only d.rootfs (text "/") ∷ read_only d.input_dir (text "/input") ∷ build_lines d.build_dir

abbrev pub last_lines : NsjailCfgData → List Line
last_lines d =
    tmpfs_mount (text "/sandbox") d.sandbox_size true true
    ∷ tmpfs_mount (text "/tmp") d.tmp_size false false
    ∷ exec_bin (text "/wrapper.sh") d.cmd
    ∷ []

unfoldable pub nsjail_cfg : NsjailCfgData → List Line
nsjail_cfg d = first_lines d ++ (file_lines d ++ (bind_lines d ++ last_lines d))
