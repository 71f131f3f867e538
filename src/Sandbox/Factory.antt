-- ===== src/Sandbox/Factory.antt =====
-- internal/sandbox/factory.go, capability.go, and the start of the two backends: `NewDockerSandbox` of
-- docker.go and `NewNsjailSandbox` of nsjail.go. The Docker client, the disk and the registry's file
-- answer as `DockerHost`, `NsjailHost` and `load` say.
pub mod Ready
pub mod Enforced
use runboxd.Base.{Bool, true, false, not, Option, none, some, [], if◌then◌else◌}
use runboxd.Base.Text.{Text, text, is_empty}
use runboxd.Base.Map.{Map}
use runboxd.Base.Result.{Result, ok, err}
use runboxd.Registry.Types.{Language, Version}
use runboxd.Config.{SandboxConfig, docker, nsjail}
use runboxd.Sandbox.Types.{RunSpec, RunResult}
use runboxd.Sandbox.Interface.{Sandbox, SandboxError, fault, Lookup, found, refused}
use runboxd.Sandbox.Entries.{
  LangEntry, StartError, docker_entry, nsjail_entry, rootfs_available, make_entries,
}
use runboxd.Sandbox.Entries as E
use runboxd.Sandbox.Workspace.{Works, AbsPath}
use runboxd.Sandbox.Cgroup.{CgroupState, delegated_cgroup_mount, cgroups_active}
use runboxd.Sandbox.Cgroup as C
use runboxd.Sandbox.Docker.{Daemon, is_true}
use runboxd.Sandbox.Docker as D
use runboxd.Sandbox.Docker.Reaper.{InspectEnd, ensure_image}
use runboxd.Sandbox.Nsjail.{Jail}
use runboxd.Sandbox.Nsjail as N

pub record DockerSandbox : Type 0 where
  pub specs : Map LangEntry

pub record NsjailSandbox : Type 0 where
  pub nsjail_path : Text
  pub rootfs_root : AbsPath
  pub specs : Map LangEntry
  pub cgroup_mount : Text

pub data NewError : Type 0 where
  no_client registry_not_loaded no_nsjail no_absolute_rootfs unsupported_config : NewError
  not_started : StartError → NewError

-- `registry.Load`, none where it fails.
abbrev pub Load : Type 0
Load = Text → Option (Map Language)

-- Whether the client can be made, and what the daemon answers for an image.
pub record DockerHost : Type 0 where
  pub client_made : Bool
  pub inspect_image : Text → InspectEnd
  pub pulls : Text → Bool
  pub drains : Text → Bool

pub record NsjailHost : Type 0 where
  pub look_path : Option Text
  pub abs : Text → Option AbsPath
  pub exists : AbsPath → Bool
  pub cgroup_calls : C.Calls
  pub cgroup_host : C.Host

abbrev pub image_available : DockerHost → Version → Bool
image_available h v =
    (ensure_image (h.inspect_image v.image) (h.pulls v.image) (h.drains v.image)).1

abbrev pub docker_started : Result StartError (Map LangEntry) → Result NewError DockerSandbox × Bool
docker_started (err e) = (err (not_started e), false)
docker_started (ok specs) = (ok (record { specs = specs }), true)

-- From `registry.Load` on, with an open client.
abbrev pub docker_loaded : DockerHost → Option (Map Language) → Result NewError DockerSandbox × Bool
docker_loaded h none = (err registry_not_loaded, false)
docker_loaded h (some languages) =
    docker_started (make_entries (docker_entry (image_available h)) [] languages)

-- With whether a client is open afterwards: what fails closes it.
unfoldable pub new_docker_sandbox :
    Load → DockerHost → (registry_path : Text) → Result NewError DockerSandbox × Bool
new_docker_sandbox load h registry_path =
    if h.client_made then docker_loaded h (load registry_path) else (err no_client, false)

abbrev pub nsjail_started :
    (nsjail_path : Text)
    → AbsPath
    → (mount : Text) → Result StartError (Map LangEntry)
    → Result NewError NsjailSandbox
nsjail_started nsjail_path root mount (err e) = err (not_started e)
nsjail_started nsjail_path root mount (ok specs) =
    ok (record {
      nsjail_path = nsjail_path;
      rootfs_root = root;
      specs = specs;
      cgroup_mount = mount;
    })

abbrev pub nsjail_loaded :
    NsjailHost
    → (nsjail_path : Text) → AbsPath
    → (mount : Text) → Option (Map Language)
    → Result NewError NsjailSandbox
nsjail_loaded h nsjail_path root mount none = err registry_not_loaded
nsjail_loaded h nsjail_path root mount (some languages) =
    nsjail_started nsjail_path root mount
      (make_entries (λ l. nsjail_entry (rootfs_available h.exists root l.name) l) [] languages)

-- From `filepath.Abs` on.
abbrev pub nsjail_rooted :
    Load
    → NsjailHost
    → (nsjail_path registry_path mount : Text) → Option AbsPath
    → Result NewError NsjailSandbox
nsjail_rooted load h nsjail_path registry_path mount none = err no_absolute_rootfs
nsjail_rooted load h nsjail_path registry_path mount (some root) =
    nsjail_loaded h nsjail_path root mount (load registry_path)

-- From `delegatedCgroupMount` on, with the state of the process's cgroup afterwards.
abbrev pub nsjail_found :
    Load
    → NsjailHost
    → Option CgroupState
    → (registry_path rootfs_root cgroup_override : Text) → Option Text
    → Result NewError NsjailSandbox × Option CgroupState
nsjail_found load h cache registry_path rootfs_root cgroup_override none = (err no_nsjail, cache)
nsjail_found load h cache registry_path rootfs_root cgroup_override (some nsjail_path) =
    let state = delegated_cgroup_mount h.cgroup_calls h.cgroup_host cache cgroup_override in
    (nsjail_rooted load h nsjail_path registry_path state.mount (h.abs rootfs_root), some state)

unfoldable pub new_nsjail_sandbox :
    Load
    → NsjailHost
    → Option CgroupState
    → (registry_path nsjail_path rootfs_root cgroup_override : Text)
    → Result NewError NsjailSandbox × Option CgroupState
new_nsjail_sandbox load h cache registry_path nsjail_path rootfs_root cgroup_override =
    nsjail_found load h cache registry_path rootfs_root cgroup_override
      (if is_empty nsjail_path then h.look_path else some nsjail_path)

-- A pointer to a configuration is a `SandboxConfig` as well.
pub data AnyConfig : Type 0 where
  by_value by_pointer : SandboxConfig → AnyConfig

pub data Backend : Type 0 where
  on_docker : DockerSandbox → Backend
  on_nsjail : NsjailSandbox → Backend

-- With what is left in the process: an open Docker client, and the state of the cgroup.
pub record NewEnd : Type 0 where
  pub result : Result NewError Backend
  pub client_open : Bool
  pub cache : Option CgroupState

abbrev pub map_ok {ℓ κ} :
    {A : Type ℓ} {B : Type κ} → (A → B) → Result NewError A → Result NewError B
map_ok f (ok a) = ok (f a)
map_ok f (err e) = err e

unfoldable pub new : Load → DockerHost → NsjailHost → Option CgroupState → AnyConfig → NewEnd
new load dh nh cache (by_pointer c) = record {
  result = err unsupported_config;
  client_open = false;
  cache = cache;
}
new load dh nh cache (by_value (docker registry_path)) =
    let e = new_docker_sandbox load dh registry_path in
    record { result = map_ok on_docker e.0; client_open = e.1; cache = cache }
new load dh nh cache (by_value (nsjail registry_path nsjail_path rootfs_root cgroup_override)) =
    let e =
      new_nsjail_sandbox load nh cache registry_path nsjail_path rootfs_root cgroup_override in
    record { result = map_ok on_nsjail e.0; client_open = false; cache = e.1 }

-- `swap_limit` is the field of the daemon's `Info`, none where the call fails.
unfoldable pub memory_limit_enforced :
    (swap_limit : Option Bool) → NsjailHost → Option CgroupState → Backend → Bool
memory_limit_enforced swap_limit nh cache (on_docker sb) = is_true swap_limit
memory_limit_enforced swap_limit nh cache (on_nsjail sb) =
    cgroups_active nh.cgroup_calls nh.cgroup_host cache

-- What a caller sees of a run. (A result without an error that is none does not occur.)
abbrev pub run_lookup : Option RunResult → Option SandboxError → Lookup RunResult
run_lookup r (some e) = refused e
run_lookup (some r) none = found r
run_lookup none none = refused (fault (text "no result"))

-- The backends as the rest of the program sees them in the course of one request.
unfoldable pub docker_sandbox : Works → AbsPath → Daemon → (pings : Bool) → DockerSandbox → Sandbox
docker_sandbox works temp d pings sb = record {
  run = λ spec.
      run_lookup (D.run works temp d sb.specs spec).result (D.run works temp d sb.specs spec).error;
  lang_spec = E.lang_spec sb.specs;
  ping = some (if pings then none else some (fault (text "ping")));
  info = some (found (E.info sb.specs));
}

-- `NsjailSandbox.Ping`
unfoldable pub ping_nsjail :
    (path_exists : Text → Bool) → (exists : AbsPath → Bool) → NsjailSandbox → Option SandboxError
ping_nsjail path_exists exists sb =
    if not (path_exists sb.nsjail_path)
    then some (fault (text "nsjail binary unavailable"))
    else if not (exists sb.rootfs_root)
    then some (fault (text "rootfs root unavailable"))
    else none

unfoldable pub nsjail_sandbox :
    Works → AbsPath → Jail → (path_exists : Text → Bool) → NsjailHost → NsjailSandbox → Sandbox
nsjail_sandbox works temp j path_exists h sb = record {
  run = λ spec.
      run_lookup (N.run works temp j sb.specs spec).result (N.run works temp j sb.specs spec).error;
  lang_spec = E.lang_spec sb.specs;
  ping = some (ping_nsjail path_exists h.exists sb);
  info = some (found (E.info sb.specs));
}
