-- ===== src/Sandbox/Factory/Ready.antt =====
-- internal/sandbox/factory.go: what a backend that starts has, and what is left of one that does not.
use runboxd.Base.{◌≡◌, refl, Bool, true, false, Option, none, some, [], if◌then◌else◌}
use runboxd.Base.Text.{Text}
use runboxd.Base.Map.{Map, lookup}
use runboxd.Base.Result.{Result, ok, err}
use runboxd.Registry.Types.{Language}
use runboxd.Config.{docker, nsjail}
use runboxd.Sandbox.Entries.{LangEntry, StartError, docker_entry, nsjail_entry, rootfs_available}
use runboxd.Sandbox.Entries.Sound.{
  AllSound, make_entries-AllSound, docker_entry-IsSound, nsjail_entry-IsSound,
}
use runboxd.Sandbox.Workspace.{AbsPath}
use runboxd.Sandbox.Cgroup.{CgroupState}
use runboxd.Sandbox.Factory.{
  Load, DockerHost, NsjailHost, DockerSandbox, NsjailSandbox, NewError, Backend, on_docker,
  on_nsjail, AnyConfig, by_value, by_pointer, new, new_docker_sandbox, new_nsjail_sandbox,
  docker_loaded, docker_started, nsjail_started, nsjail_loaded, nsjail_rooted, nsjail_found,
  image_available, map_ok,
}

abbrev pub specs_of : Backend → Map LangEntry
specs_of (on_docker sb) = sb.specs
specs_of (on_nsjail sb) = sb.specs

-- Only the Docker backend has a client.
abbrev pub has_client : Result NewError Backend → Bool
has_client (ok (on_docker sb)) = true
has_client (ok (on_nsjail sb)) = false
has_client (err e) = false

-- What is ready has sound languages.
abbrev pub Sound : Result NewError Backend → Type 0
Sound (ok b) = AllSound (specs_of b)
Sound (err e) = Unit

no_languages : AllSound []
unfolding lookup
no_languages lang e h = absurd (cc)

abbrev DockerReady : Result NewError DockerSandbox × Bool → Type 0
DockerReady e = Sound (map_ok on_docker e.0) × (e.1 ≡ has_client (map_ok on_docker e.0))

docker_started-Ready :
    (r : Result StartError (Map LangEntry))
    → ((specs : Map LangEntry) → r ≡ ok specs → AllSound specs)
    → DockerReady (docker_started r)
docker_started-Ready (err e) h = (tt, refl)
docker_started-Ready (ok specs) h = (h specs refl, refl)

docker_loaded-Ready : (h : DockerHost) (o : Option (Map Language)) → DockerReady (docker_loaded h o)
docker_loaded-Ready h none = (tt, refl)
docker_loaded-Ready h (some languages) = docker_started-Ready _ λ specs made.
    make_entries-AllSound (docker_entry (image_available h))
      (docker_entry-IsSound (image_available h)) [] languages specs no_languages made

new_docker_sandbox-Ready :
    (load : Load) (h : DockerHost) (path : Text) → DockerReady (new_docker_sandbox load h path)
unfolding new_docker_sandbox
new_docker_sandbox-Ready load h path =
    elim h.client_made
      as (λ b.
        DockerReady (if b then docker_loaded h (load path) else (err NewError.no_client, false))) [
          | true ↦ docker_loaded-Ready h (load path)
          | false ↦ (tt, refl)
        ]

nsjail_started-Sound :
    (nsjail_path : Text) (root : AbsPath) (mount : Text) (r : Result StartError (Map LangEntry))
    → ((specs : Map LangEntry) → r ≡ ok specs → AllSound specs)
    → Sound (map_ok on_nsjail (nsjail_started nsjail_path root mount r))
nsjail_started-Sound nsjail_path root mount (err e) h = tt
nsjail_started-Sound nsjail_path root mount (ok specs) h = h specs refl

nsjail_loaded-Sound :
    (h : NsjailHost) (nsjail_path : Text) (root : AbsPath) (mount : Text)
    (o : Option (Map Language))
    → Sound (map_ok on_nsjail (nsjail_loaded h nsjail_path root mount o))
nsjail_loaded-Sound h nsjail_path root mount none = tt
nsjail_loaded-Sound h nsjail_path root mount (some languages) =
    nsjail_started-Sound nsjail_path root mount _ λ specs made.
      make_entries-AllSound (λ l. nsjail_entry (rootfs_available h.exists root l.name) l)
        (λ l. nsjail_entry-IsSound (rootfs_available h.exists root l.name) l) [] languages specs
        no_languages made

nsjail_rooted-Sound :
    (load : Load) (h : NsjailHost) (nsjail_path path mount : Text) (o : Option AbsPath)
    → Sound (map_ok on_nsjail (nsjail_rooted load h nsjail_path path mount o))
nsjail_rooted-Sound load h nsjail_path path mount none = tt
nsjail_rooted-Sound load h nsjail_path path mount (some root) =
    nsjail_loaded-Sound h nsjail_path root mount (load path)

nsjail_found-Sound :
    (load : Load) (h : NsjailHost) (cache : Option CgroupState) (path root override : Text)
    (o : Option Text)
    → Sound (map_ok on_nsjail (nsjail_found load h cache path root override o).0)
nsjail_found-Sound load h cache path root override none = tt
nsjail_found-Sound load h cache path root override (some nsjail_path) =
    nsjail_rooted-Sound load h nsjail_path path _ (h.abs root)

nsjail-no_client : (r : Result NewError NsjailSandbox) → false ≡ has_client (map_ok on_nsjail r)
nsjail-no_client (ok sb) = refl
nsjail-no_client (err e) = refl

-- Whatever the configuration, a backend that starts has, for each of its languages, valid limits that leave some time and memory, and a
-- default version that it knows; and a Docker client is left open exactly where the Docker backend
-- starts, so that one which fails to start has closed its client.
pub new-Ready :
    (load : Load) (dh : DockerHost) (nh : NsjailHost) (cache : Option CgroupState) (c : AnyConfig)
    → Sound (new load dh nh cache c).result
      × ((new load dh nh cache c).client_open ≡ has_client (new load dh nh cache c).result)
unfolding new new_nsjail_sandbox
new-Ready load dh nh cache (by_pointer c) = (tt, refl)
new-Ready load dh nh cache (by_value (docker path)) = new_docker_sandbox-Ready load dh path
new-Ready load dh nh cache (by_value (nsjail path nsjail_path root override)) =
    (nsjail_found-Sound load nh cache path root override _, nsjail-no_client _)
