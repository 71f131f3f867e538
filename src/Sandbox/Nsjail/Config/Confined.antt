-- ===== src/Sandbox/Nsjail/Config/Confined.antt =====
-- internal/sandbox/nsjail.go: the limits and mounts of an invocation, beside those of the Docker
-- backend.
use runboxd.Base.{
  ℕ, suc, Option, none, some, true, ◌+◌, ◌*◌, ◌≡◌, refl, ◌∙◌, Bool, false, not, ◌&&◌, ◌||◌, List,
  [], ◌∷◌, ◌++◌, arith, if◌then◌else◌,
}
use runboxd.Base.Int.{ℤ, pos, negsuc, ◌≤ℤ◌, ◌<ℤ◌}
use runboxd.Base.Float.{ceil_times}
use runboxd.Base.Text.{Text, text, text_eq}
use runboxd.Base.Map.{Map}
use runboxd.Sandbox.Types.{RunSpec}
use runboxd.Sandbox.Clamp.{effective_timeout}
use runboxd.Sandbox.Entries.{LangEntry}
use runboxd.Sandbox.Docker.Host.{HostConfig, Tmpfs}
use runboxd.ImageSpec.Spec.{no_items}
use runboxd.Sandbox.Workspace.{AbsPath}
use runboxd.Sandbox.Nsjail.Config.{NsjailSpec, NsjailCfgData, Stage, build, run, nsjail_cfg_data}
use runboxd.Sandbox.Nsjail.Config.MountPoints.{exported_dirs, all_mount_on, nsjail_cfg-mount_dirs}
use runboxd.Sandbox.Nsjail.Template.{
  Line, Value, number, field, uidmap, gidmap, envar, mount, exec_bin, limit_lines, env_lines,
  build_lines, nsjail_cfg, first_lines, file_lines, bind_lines, last_lines,
}

-- A file system that a program can write to and run programs from.
abbrev pub writable_and_executable : Line → Bool
writable_and_executable (mount m) = m.rw && not m.noexec
writable_and_executable (field key value) = false
writable_and_executable (uidmap inside outside) = false
writable_and_executable (gidmap inside outside) = false
writable_and_executable (envar name value) = false
writable_and_executable (exec_bin program args) = false

-- Nanoseconds, and one second later.
abbrev scaled : ℤ → ℤ
scaled (pos n) = pos (n * 1000000000)
scaled (negsuc n) = negsuc (n * 1000000000)

abbrev later : ℤ → ℤ
later (pos n) = pos (n + 1000000000)
later (negsuc n) = negsuc n

abbrev sizes : List Tmpfs → List ℤ
sizes [] = []
sizes (t ∷ ts) = t.size ∷ sizes ts

abbrev build_size : Text → List ℤ
build_size lang_type = if text_eq lang_type (text "compiled") then pos 10485760 ∷ [] else []

-- Some line mounts one.
abbrev pub any_open : List Line → Bool
any_open [] = false
any_open (l ∷ ls) = writable_and_executable l || any_open ls

any_open-append : (xs ys : List Line) → any_open (xs ++ ys) ≡ (any_open xs || any_open ys)
any_open-append [] ys = refl
any_open-append (x ∷ xs) ys = ground (arith, any_open-append xs ys)

any_open-env_lines : (env : Map Text) → any_open (env_lines env) ≡ false
any_open-env_lines [] = refl
any_open-env_lines ((name, value) ∷ env) = any_open-env_lines env

any_open-limit_lines : (d : NsjailCfgData) → any_open (limit_lines d) ≡ false
any_open-limit_lines d = ground arith

any_open-build_lines : (dirs : List AbsPath) → any_open (build_lines dirs) ≡ not (no_items dirs)
any_open-build_lines [] = refl
any_open-build_lines (dir ∷ dirs) = refl

any_open-nsjail_cfg : (d : NsjailCfgData) → any_open (nsjail_cfg d) ≡ not (no_items d.build_dir)
unfolding nsjail_cfg
any_open-nsjail_cfg d = ground (
  arith,
  any_open-append (first_lines d) (file_lines d ++ (bind_lines d ++ last_lines d)),
  any_open-append (file_lines d) (bind_lines d ++ last_lines d),
  any_open-append (bind_lines d) (last_lines d),
  any_open-limit_lines d,
  any_open-env_lines d.env,
  any_open-build_lines d.build_dir,
)

-- The value of a field in the text of a configuration.
abbrev pub value_of : Text → List Line → Option Value
value_of key [] = none
value_of key (field k v ∷ ls) = if text_eq k key then some v else value_of key ls
value_of key (uidmap inside outside ∷ ls) = value_of key ls
value_of key (gidmap inside outside ∷ ls) = value_of key ls
value_of key (envar name value ∷ ls) = value_of key ls
value_of key (mount m ∷ ls) = value_of key ls
value_of key (exec_bin program args ∷ ls) = value_of key ls

abbrev pub exact_seconds : ℤ
exact_seconds = pos (4194304 * 1000000000)

-- Bytes in so many MiB, and one MiB more.
abbrev mib : ℕ → ℤ
mib n = pos (n * 1048576)

-- What the text of the configuration makes nsjail enforce, beside Docker's configuration `h`: through a
-- cgroup the same memory without swap, the same number of processes and the same share of the processors;
-- without a cgroup the same memory in whole MiB and the same number of processes, for each process and
-- user.
pub data IsEnforced (entry : LangEntry) (h : HostConfig) (d : NsjailCfgData) : Type 0 where
  by_cgroup :
      value_of (text "cgroup_mem_max") (nsjail_cfg d) ≡ some (number h.memory)
      → value_of (text "cgroup_mem_swap_max") (nsjail_cfg d) ≡ some (number (pos 0))
      → value_of (text "cgroup_pids_max") (nsjail_cfg d) ≡ some (number h.pids_limit)
      → value_of (text "cgroup_cpu_ms_per_sec") (nsjail_cfg d)
        ≡ some (number (ceil_times entry.limits.max_cpus 1000))
      → h.nano_cpus ≡ ceil_times entry.limits.max_cpus 1000000000
      → IsEnforced entry h d
  by_rlimit :
      (m : ℕ)
      → d.cgroup_mount ≡ []
      → value_of (text "rlimit_as") (nsjail_cfg d) ≡ some (number (pos m))
      → mib m ≤ℤ h.memory
      → h.memory <ℤ mib (suc m)
      → value_of (text "rlimit_nproc") (nsjail_cfg d) ≡ some (number h.pids_limit)
      → value_of (text "cgroup_cpu_ms_per_sec") (limit_lines d) ≡ none
      → IsEnforced entry h d

-- What a run may use, with the Docker backend's configuration for the same request.
pub record IsConfined (spec : RunSpec) (entry : LangEntry) (h : HostConfig) (d : NsjailCfgData)
    : Type 0 where
  pub in_time : effective_timeout spec.timeout entry.limits ≤ℤ scaled d.timeout_sec
  pub before_deadline : scaled d.timeout_sec <ℤ later (effective_timeout spec.timeout entry.limits)
  pub enforced : IsEnforced entry h d
  pub same_workspace : (sizes h.tmpfs) ≡ (d.sandbox_size ∷ d.tmp_size ∷ build_size entry.lang_type)

module _ (show : ℤ → Text) (temp : AbsPath) (cgroup_mount : Text) where
  has_build_dir :
      (ns : NsjailSpec) (t memory : ℤ) (stage : Stage)
      → not (no_items (nsjail_cfg_data show ns t memory cgroup_mount temp stage).build_dir)
        ≡ text_eq ns.lang_type (text "compiled")
  unfolding nsjail_cfg_data
  has_build_dir ns t memory run = ground arith
  has_build_dir ns t memory build = ground arith

  -- The configuration of each stage mounts a file system that is both writable and executable exactly
  -- for the compiled languages, and it mounts only on the root, on /proc (which the container had that was exported) and
  -- on directories that export-rootfs makes in every root file system it finishes.
  pub nsjail_cfg-mounts :
      (ns : NsjailSpec) (t memory : ℤ) (stage : Stage)
      → (any_open (nsjail_cfg (nsjail_cfg_data show ns t memory cgroup_mount temp stage))
          ≡ text_eq ns.lang_type (text "compiled"))
        × (all_mount_on exported_dirs
              (nsjail_cfg (nsjail_cfg_data show ns t memory cgroup_mount temp stage))
            ≡ true)
  nsjail_cfg-mounts ns t memory stage =
      let d = nsjail_cfg_data show ns t memory cgroup_mount temp stage in
      (any_open-nsjail_cfg d ∙ has_build_dir ns t memory stage, nsjail_cfg-mount_dirs d)
