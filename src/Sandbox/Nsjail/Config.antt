-- ===== src/Sandbox/Nsjail/Config.antt =====
-- internal/sandbox/nsjail.go: `writeNsjailConfig`, the configuration of one invocation of nsjail, with
-- its template and `injectJVMFlags`. Writing the file is not modelled here. Durations become seconds
-- exactly, as the float64 of `Seconds` does below 2^22 seconds.
pub mod Confined
pub mod MountPoints
use runboxd.Base.{
  ℕ, suc, ◌+◌, ◌-◌, ◌*◌, ◌/◌, ◌^◌, Bool, true, false, not, ◌&&◌, List, [], ◌∷◌, ◌++◌, if◌then◌else◌,
  ◌==◌,
}
use runboxd.Base.Int.{ℤ, pos, negsuc, max_ℤ}
use runboxd.Base.Float.{Float64, ceil_times, is_positive}
use runboxd.Base.Text.{Text, text, text_eq, is_empty, split}
use runboxd.Base.Map.{Map}
use runboxd.FilePath.{join_path}
use runboxd.Sandbox.Limits.{LangLimits, LangCompileLimits}
use runboxd.Sandbox.Interface.{Lookup, found, refused}
use runboxd.Sandbox.Entries.{LangEntry, VersionSpec, lookup_spec}
use runboxd.Sandbox.Workspace.{AbsPath}

pub record NsjailSpec : Type 0 where
  pub lang_type : Text
  pub filename : Text
  pub rootfs : AbsPath
  pub limits : LangLimits
  pub compile_limits : LangCompileLimits
  pub run_cmd : List Text
  pub build_cmd : List Text
  pub env : Map Text

-- The fields of `nsjailCfgData`; `sandbox_size` and `tmp_size` are the numbers in the options
-- "size=%d", and an empty `build_dir` is no path.
pub record NsjailCfgData : Type 0 where
  pub uid : Text
  pub gid : Text
  pub timeout_sec : ℤ
  pub mem_mb : ℤ
  pub max_pids : ℤ
  pub fsize_mb : ℕ
  pub nofile : ℕ
  pub log_path : AbsPath
  pub rootfs : AbsPath
  pub input_dir : AbsPath
  pub build_dir : List AbsPath
  pub sandbox_size : ℤ
  pub tmp_size : ℤ
  pub cgroup_mount : Text
  pub cgroup_mem_max : ℤ
  pub cgroup_pids_max : ℤ
  pub cgroup_cpu_ms_per_sec : ℤ
  pub cmd : List Text
  pub env : Map Text

pub data Stage : Type 0 where
  build run : Stage

-- int(math.Ceil(timeout.Seconds()))
unfoldable pub ceil_seconds : ℤ → ℤ
ceil_seconds (pos n) = pos ((n + 999999999) / 1000000000)
ceil_seconds (negsuc n) =
    if (suc n / 1000000000) == 0 then pos 0 else negsuc (suc n / 1000000000 - 1)

-- memBytes / (1024 * 1024), towards zero.
unfoldable pub mib_of : ℤ → ℤ
mib_of (pos n) = pos (n / 1048576)
mib_of (negsuc n) = if (suc n / 1048576) == 0 then pos 0 else negsuc (suc n / 1048576 - 1)

-- `filepath.Base`: the last name in a path.
abbrev last_name : Text → List Text → Text
last_name last [] = last
last_name last (part ∷ parts) = last_name (if is_empty part then last else part) parts

unfoldable pub base_name : Text → Text
base_name path = if is_empty path then text "." else last_name (text "/") (split path b'/')

-- `show` is the format "%d".
abbrev jvm_flags : (show : ℤ → Text) → Text → ℤ → Float64 → List Text
jvm_flags show p mem_bytes max_cpus =
    (p ++ (text "-XX:MaxRAM=" ++ show mem_bytes))
    ∷ (p ++ text "-XX:+UseSerialGC")
    ∷ (p ++ (text "-XX:ActiveProcessorCount=" ++ show (max_ℤ (pos 1) (ceil_times max_cpus 1))))
    ∷ (p ++ text "-XX:CICompilerCount=2")
    ∷ []

unfoldable pub inject_jvm_flags : (show : ℤ → Text) → List Text → ℤ → Float64 → List Text
inject_jvm_flags show [] mem_bytes max_cpus = []
inject_jvm_flags show (program ∷ args) mem_bytes max_cpus =
    let name = base_name program in
    if text_eq name (text "java")
    then program ∷ jvm_flags show [] mem_bytes max_cpus ++ args
    else if text_eq name (text "javac")
    then program ∷ jvm_flags show (text "-J") mem_bytes max_cpus ++ args
    else program ∷ args

-- The data of a run, and what the stage "build" puts in their place.
abbrev pub run_data : NsjailSpec → ℤ → ℤ → Text → AbsPath → NsjailCfgData
run_data ns timeout mem_bytes cgroup_mount tmp_dir = record {
  uid = text "65534";
  gid = text "65534";
  timeout_sec = ceil_seconds timeout;
  mem_mb = mib_of mem_bytes;
  max_pids = ns.limits.max_pids;
  fsize_mb = 16;
  nofile = 64;
  log_path = join_path tmp_dir (text "nsjail-run.log");
  rootfs = ns.rootfs;
  input_dir = join_path tmp_dir (text "/input");
  build_dir =
      if text_eq ns.lang_type (text "compiled") then join_path tmp_dir (text "/build") ∷ [] else [];
  sandbox_size = ns.limits.workspace_size_bytes;
  tmp_size = ns.limits.tmp_size_bytes;
  cgroup_mount = cgroup_mount;
  cgroup_mem_max = mem_bytes;
  cgroup_pids_max = ns.limits.max_pids;
  cgroup_cpu_ms_per_sec = ceil_times ns.limits.max_cpus 1000;
  cmd = ns.run_cmd;
  env = ns.env;
}

abbrev pub build_data : NsjailSpec → AbsPath → NsjailCfgData → NsjailCfgData
build_data ns tmp_dir d = record d {
  timeout_sec = ceil_seconds ns.compile_limits.timeout;
  max_pids = ns.compile_limits.max_pids;
  cgroup_pids_max = ns.compile_limits.max_pids;
  cgroup_cpu_ms_per_sec = ceil_times ns.compile_limits.max_cpus 1000;
  log_path = join_path tmp_dir (text "nsjail-build.log");
  fsize_mb = 1024;
  nofile = 512;
  sandbox_size = ns.compile_limits.workspace_size_bytes;
  tmp_size = ns.compile_limits.tmp_size_bytes;
  cmd = ns.build_cmd;
}

abbrev pub stage_data : Stage → NsjailSpec → AbsPath → NsjailCfgData → NsjailCfgData
stage_data run ns tmp_dir d = d
stage_data build ns tmp_dir d = build_data ns tmp_dir d

abbrev pub jvm_cpus : Stage → NsjailSpec → Float64
jvm_cpus run ns = ns.limits.max_cpus
jvm_cpus build ns =
    if is_positive ns.compile_limits.max_cpus
    then ns.compile_limits.max_cpus
    else ns.limits.max_cpus

unfoldable pub nsjail_cfg_data :
    (show : ℤ → Text)
    → NsjailSpec
    → (timeout mem_bytes : ℤ) → (cgroup_mount : Text) → (tmp_dir : AbsPath) → Stage
    → NsjailCfgData
nsjail_cfg_data show ns timeout mem_bytes cgroup_mount tmp_dir stage =
    let d = stage_data stage ns tmp_dir (run_data ns timeout mem_bytes cgroup_mount tmp_dir) in
    record d { cmd = inject_jvm_flags show d.cmd mem_bytes (jvm_cpus stage ns) }

-- The spec of the nsjail backend: what the table has, with the version's root file system.
abbrev pub nsjail_spec :
    AbsPath → Text → Lookup (LangEntry × Text × VersionSpec) → Lookup NsjailSpec
nsjail_spec rootfs_root lang (refused e) = refused e
nsjail_spec rootfs_root lang (found (entry, version, vs)) = found (record {
  lang_type = entry.lang_type;
  filename = entry.filename;
  rootfs = join_path (join_path rootfs_root lang) version;
  limits = entry.limits;
  compile_limits = entry.compile_limits;
  run_cmd = vs.run_cmd;
  build_cmd = vs.build_cmd;
  env = entry.env;
})

unfoldable pub lookup_nsjail_spec : Map LangEntry → AbsPath → Text → Text → Lookup NsjailSpec
lookup_nsjail_spec specs rootfs_root lang version =
    nsjail_spec rootfs_root lang (lookup_spec specs lang version)
