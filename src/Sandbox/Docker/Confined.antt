-- ===== src/Sandbox/Docker/Confined.antt =====
-- internal/sandbox/docker.go: the confinement of every container that `Run` creates.
use runboxd.Base.{
  false, if_both, ◌*◌, true, Option, none, some, sym, subst, ◌∙◌, [], ◌∷◌, ◌≡◌, refl, All,
}
use runboxd.Base.Int.{ℤ, pos, ◌≤ℤ◌}
use runboxd.Base.Float.{ceil_times}
use runboxd.Base.Text.{Text, text, text_eq}
use runboxd.Base.Map.{Map, lookup}
use runboxd.Sandbox.Types.{RunSpec}
use runboxd.Sandbox.Interface.{found}
use runboxd.Sandbox.Limits.{LangLimits}
use runboxd.Sandbox.Limits.Valid.{IsValid}
use runboxd.Sandbox.Clamp.{
  effective_timeout, effective_timeout-Clamps, effective_memory_bytes-Clamps,
}
use runboxd.Sandbox.Entries.{LangEntry, VersionSpec, lookup_spec, with_spec, with_entry}
use runboxd.Sandbox.Workspace.{Works, AbsPath}
use runboxd.Sandbox.Docker.{Daemon, Call, run}
use runboxd.Sandbox.Docker.Host.{HostConfig, Tmpfs, get_host_config}
use runboxd.Sandbox.Docker.Calls.{Made, Meets, run-Meets}
use runboxd.Sandbox.Docker.Container.{ContainerConfig, container_config, managed_label}

-- A file system in memory that a container may have: two of the sizes that the limits set, which no program
-- is run from, and /build with 10 MiB for the compiled languages only.
pub data IsScratch (entry : LangEntry) (t : Tmpfs) : Type 0 where
  sandbox_dir :
      t.target ≡ text "/sandbox"
      → t.size ≡ entry.limits.workspace_size_bytes
      → t.exec ≡ false
      → IsScratch entry t
  tmp_dir :
      t.target ≡ text "/tmp"
      → t.size ≡ entry.limits.tmp_size_bytes
      → t.exec ≡ false
      → IsScratch entry t
  build_dir :
      text_eq entry.lang_type (text "compiled") ≡ true
      → t.target ≡ text "/build"
      → t.size ≡ pos (10 * 1024 * 1024)
      → t.flags ≡ text "nosuid" ∷ text "nodev" ∷ []
      → IsScratch entry t

-- What the limits of a language demand of a container: no network, no capabilities, nothing writable but
-- the file systems above, the share of the processors, a capped log, no swap, and memory within the
-- bounds.
pub record IsConfined (entry : LangEntry) (host : HostConfig) : Type 0 where
  pub no_network : host.network_mode ≡ text "none"
  pub no_capabilities : host.cap_drop ≡ text "ALL" ∷ []
  pub no_new_privileges : host.security_opt ≡ text "no-new-privileges:true" ∷ []
  pub root_read_only : host.readonly_rootfs ≡ true
  pub mounts_read_only : All (λ m. (m.target ≡ text "/input") × (m.read_only ≡ true)) host.mounts
  pub scratch : All (IsScratch entry) host.tmpfs
  pub cpus : host.nano_cpus ≡ ceil_times entry.limits.max_cpus 1000000000
  pub log_size : host.log_config.max_size ≡ text "3m"
  pub log_files : host.log_config.max_file ≡ text "1"
  pub no_swap : host.memory_swap ≡ host.memory
  pub memory_at_least : entry.limits.min_memory_bytes ≤ℤ host.memory
  pub memory_at_most : host.memory ≤ℤ entry.limits.max_memory_bytes
  pub pids : host.pids_limit ≡ entry.limits.max_pids

-- Of the program in the container: it is nobody's, and the reaper can find its container.
pub record IsNobody (config : ContainerConfig) : Type 0 where
  pub nobody : config.user ≡ text "65534"
  pub managed : lookup managed_label config.labels ≡ some (text "1")

-- A call that keeps to the limits: the container that it creates is confined, the time that it waits
-- for is within the bounds.
abbrev pub KeepsConfined : LangEntry → Made
KeepsConfined entry image config host = IsNobody config × IsConfined entry host

abbrev pub KeepsTime : LangLimits → ℤ → Type 0
KeepsTime limits t = (limits.min_timeout ≤ℤ t) × (t ≤ℤ limits.max_timeout)

abbrev pub Keeps : LangEntry → Call → Type 0
Keeps entry = Meets (KeepsConfined entry) (KeepsTime entry.limits)

get_host_config-IsConfined :
    (spec : RunSpec) (entry : LangEntry) (temp : AbsPath)
    → IsValid entry.limits
    → IsConfined entry (get_host_config spec entry temp)
unfolding get_host_config
get_host_config-IsConfined spec entry temp valid =
    let clamps = effective_memory_bytes-Clamps spec.memory_bytes entry.limits valid in
    record {
      no_network = refl;
      no_capabilities = refl;
      no_new_privileges = refl;
      root_read_only = refl;
      mounts_read_only = ((refl, refl), tt);
      scratch = (
        sandbox_dir refl refl refl,
        (
          tmp_dir refl refl refl,
          if_both (All (IsScratch entry)) (text_eq entry.lang_type (text "compiled")) _ []
              (λ compiled. (build_dir compiled refl refl refl, tt)) (λ interpreted. tt),
        ),
      );
      cpus = refl;
      log_size = refl;
      log_files = refl;
      no_swap = refl;
      memory_at_least = clamps.at_least;
      memory_at_most = clamps.at_most;
      pids = refl;
    }

container_config-IsNobody : (env : Map Text) (stdin : Text) → IsNobody (container_config env stdin)
unfolding container_config lookup text_eq
container_config-IsNobody env stdin = record { nobody = refl; managed = refl }

abbrev CallKeeps : LangEntry → RunSpec → LangEntry → AbsPath → Type 0
CallKeeps entry spec e temp =
    (IsNobody (container_config e.env spec.stdin) × IsConfined entry (get_host_config spec e temp))
    × KeepsTime entry.limits (effective_timeout spec.timeout e.limits)

entry-CallKeeps :
    (spec : RunSpec) (e : LangEntry) (temp : AbsPath) → IsValid e.limits → CallKeeps e spec e temp
entry-CallKeeps spec e temp valid =
    let clamps = effective_timeout-Clamps spec.timeout e.limits valid in
    (
      (container_config-IsNobody e.env spec.stdin, get_host_config-IsConfined spec e temp valid),
      (clamps.at_least, clamps.at_most),
    )

with_spec-found :
    (entry e : LangEntry) (w v : Text) (o : Option VersionSpec) (vs : VersionSpec)
    → with_spec entry w o ≡ found (e, v, vs)
    → e ≡ entry
unfolding with_spec
with_spec-found entry e w v none vs h = cc
with_spec-found entry e w v (some x) vs h = cc

with_entry-found :
    (version : Text) (o : Option LangEntry) (entry e : LangEntry) (v : Text) (vs : VersionSpec)
    → o ≡ some entry
    → with_entry version o ≡ found (e, v, vs)
    → e ≡ entry
unfolding with_entry
with_entry-found version none entry e v vs here h = cc
with_entry-found version (some x) entry e v vs here h =
    let same : x ≡ entry = cc in with_spec-found x e _ v _ vs h ∙ same

lookup_spec-found :
    (specs : Map LangEntry) (lang version : Text) (entry e : LangEntry) (v : Text)
    (vs : VersionSpec)
    → lookup lang specs ≡ some entry
    → lookup_spec specs lang version ≡ found (e, v, vs)
    → e ≡ entry
unfolding lookup_spec
lookup_spec-found specs lang version entry e v vs here h =
    with_entry-found version (lookup lang specs) entry e v vs here h

-- Under valid limits every container that a run creates is confined as the limits of its language
-- demand (its share of the processors, memory, processes, the sizes of the file systems in memory and
-- which of them programs may be run from), has no network, no capabilities and a capped log, runs as
-- nobody and has the label that the reaper looks for; and the run waits for it no longer, and no shorter,
-- than those limits allow.
pub run-Keeps :
    (works : Works) (temp : AbsPath) (d : Daemon) (specs : Map LangEntry) (spec : RunSpec)
    (entry : LangEntry)
    → lookup spec.language specs ≡ some entry
    → IsValid entry.limits
    → All (Keeps entry) (run works temp d specs spec).calls
run-Keeps works temp d specs spec entry here valid =
    run-Meets (KeepsConfined entry) (KeepsTime entry.limits) works temp d specs spec λ e v vs h.
      let same = lookup_spec-found specs spec.language spec.version entry e v vs here h in
      subst (λ (x : LangEntry). CallKeeps x spec e temp) same
        (entry-CallKeeps spec e temp (subst (λ (x : LangEntry). IsValid x.limits) (sym same) valid))
