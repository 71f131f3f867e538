-- ===== src/Examples/Start.antt =====
-- internal/config and what the backends do when they start or on the clock.
use runboxd.Base.{subst, ℕ, ◌+◌, ◌-◌, ◌≤◌, ◌<◌, ◌≡◌, refl, true, false, some, [], ◌∷◌, arith, ◌++◌}
use runboxd.Base.Int.{ℤ, pos, negsuc, pos_part, ◌≤ℤ◌}
use runboxd.Base.Text.{Text, text, text_eq, is_empty}
use runboxd.Base.Map.{Map, lookup}
use runboxd.Base.Result.{Result, ok}
use runboxd.Config.{
  Config, Atoi, getenv, get_env_or_default, parse_int_env_or_default, from_env, load,
}
use runboxd.Config.{LoadError}
use runboxd.Config.Daemon.{Outside}
use runboxd.Config.Daemon as D
use runboxd.Api.Pool.{
  new_worker_pool, System, Reach, here, next, arrive, act, running, rejecting, take_slot, find_full,
  overflow,
}
use runboxd.Api.Pool.Invariant.{total, in_queue}
use runboxd.Config.Load.{load-IsGuarded, overlarge_queue}
use runboxd.Sandbox.Clamp.{effective_timeout}
use runboxd.Sandbox.Entries.{LangEntry}
use runboxd.Sandbox.Types.{RunSpec}
use runboxd.Sandbox.Workspace.{AbsPath}
use runboxd.Sandbox.Docker.Reaper.{reap_max_age, second, is_orphan}
use runboxd.Sandbox.Docker.Reaper.Age.{created_at, is_orphan-run}
use runboxd.Sandbox.Nsjail.Config.{NsjailSpec, build, nsjail_cfg_data}
use runboxd.Sandbox.Nsjail.Config.Confined.{any_open, nsjail_cfg-mounts}
use runboxd.Sandbox.Nsjail.Config.MountPoints.{exported_dirs, all_mount_on}
use runboxd.Sandbox.Nsjail.Template.{nsjail_cfg}
use runboxd.Sandbox.Cgroup.{Calls, Host}
use runboxd.Examples.Sandbox.{limits}

-- It reads one value, 2^31.
abbrev atoi : Atoi
atoi value = some (pos 2147483648)

abbrev env : Map Text
env = (text "AUTH_TOKEN", text "t") ∷ (text "MAX_QUEUE_SIZE", text "2147483648") ∷ []

abbrev config : Config
config = record {
  port = text "8080";
  registry_path = text "./language_registry.yml";
  worker_pool_size = pos 4;
  max_queue_size = pos 2147483648;
  sandbox_backend = text "docker";
  nsjail_path = [];
  rootfs_path = text "./_rootfs";
  cgroup_v2_mount = [];
  auth_token = text "t";
  auth_allow_unauthenticated = false;
}

config_loads : load atoi (pos 4) env ≡ ok config
unfolding load from_env get_env_or_default parse_int_env_or_default getenv lookup text_eq
config_loads = refl

load-IsGuarded_example :
    (pos 1 ≤ℤ config.worker_pool_size)
    × (pos 0 ≤ℤ config.max_queue_size)
    × (is_empty config.auth_token ≡ true
        → getenv env (text "AUTH_ALLOW_UNAUTHENTICATED") ≡ text "true")
load-IsGuarded_example = load-IsGuarded atoi env (pos 4) config (omega arith) config_loads

queue_size : getenv env (text "MAX_QUEUE_SIZE") ≡ text "2147483648"
unfolding getenv lookup text_eq
queue_size = refl

queue_accepted : pos 2147483648 ≡ (from_env atoi (pos 4) env).max_queue_size
unfolding from_env get_env_or_default parse_int_env_or_default getenv lookup text_eq
queue_accepted = refl

-- A second request finds the one slot taken and is on its way to be rejected.
abbrev full_pool : System
full_pool = record {
  pool = record { size = 1; sem = 1; waiting = 1; max_waiting = negsuc 2147483647 };
  requests = rejecting ∷ running ∷ [];
}

abbrev full_reached : Reach 1 (pos 2147483648) full_pool
unfolding new_worker_pool
full_reached =
    next
      (next
        (next (next (next here (arrive (omega arith))) (act [] [] refl (take_slot (omega arith))))
          (arrive (omega arith)))
        (act [] (running ∷ []) refl (find_full (omega arith))))
      (act [] (running ∷ []) refl (overflow (omega arith)))

overlarge_queue_example :
    ((from_env atoi (pos 4) env).max_queue_size ≡ pos 2147483648)
    × (total in_queue full_pool.requests ≡ 0)
overlarge_queue_example =
    overlarge_queue atoi env (pos 4) (text "2147483648") 2147483648 1 queue_size refl refl
      (omega arith) (omega arith) (subst (λ v. Reach 1 v full_pool) queue_accepted full_reached)

is_orphan-run_example :
    (7 + pos_part (effective_timeout (pos 0) limits) ≤ reap_max_age - second
      → (now : ℕ) → now ≤ 5 + 7 + pos_part (effective_timeout (pos 0) limits)
      → is_orphan (created_at 5) now reap_max_age ≡ false)
    × (reap_max_age < 7 + pos_part (effective_timeout (pos 0) limits)
        → (now : ℕ) × (now < 5 + 7 + pos_part (effective_timeout (pos 0) limits))
          × (is_orphan (created_at 5) now reap_max_age ≡ true))
is_orphan-run_example = is_orphan-run (pos 0) limits 5 7

abbrev entry : LangEntry
entry = record {
  default_version = text "21";
  lang_type = text "compiled";
  filename = text "Main.java";
  env = [];
  limits = limits;
  compile_limits = record {
    memory_bytes = pos 268435456;
    timeout = pos 30000000000;
    max_pids = pos 64;
    max_cpus = limits.max_cpus;
    workspace_size_bytes = pos 10485760;
    tmp_size_bytes = pos 5242880;
  };
  versions = [];
}

abbrev pub ns : NsjailSpec
ns = record {
  lang_type = entry.lang_type;
  filename = entry.filename;
  rootfs = text "21" ∷ text "java" ∷ [];
  limits = entry.limits;
  compile_limits = entry.compile_limits;
  run_cmd = text "java" ∷ text "Main" ∷ [];
  build_cmd = text "javac" ∷ text "Main.java" ∷ [];
  env = [];
}

-- Numbers are shown as one digit.
abbrev pub show : ℤ → Text
show n = text "1"

abbrev temp : AbsPath
temp = text "runboxd-1" ∷ text "tmp" ∷ []

abbrev request : RunSpec
request = record {
  language = text "java";
  version = [];
  code = text "class Main {}";
  workspace_files = [];
  stdin = [];
  timeout = pos 1500000000;
  memory_bytes = pos 0;
}

nsjail_cfg-mounts_example :
    (any_open (nsjail_cfg (nsjail_cfg_data show ns (pos 1500000000) (pos 67108864) [] temp build))
      ≡ text_eq (text "compiled") (text "compiled"))
    × (all_mount_on exported_dirs
          (nsjail_cfg (nsjail_cfg_data show ns (pos 1500000000) (pos 67108864) [] temp build))
        ≡ true)
nsjail_cfg-mounts_example = nsjail_cfg-mounts show temp [] ns (pos 1500000000) (pos 67108864) build

abbrev pub calls : Calls
calls = record { join = λ a b. a ++ b; fields = λ t. text "cpu" ∷ text "memory" ∷ text "pids" ∷ [] }

abbrev pub host : Host
host = record {
  self_cgroup = some (text "0::/user");
  read_controllers = λ d. some (text "cpu memory pids");
  leaf_made = true;
  pid_written = true;
  subtree_written = true;
}

abbrev configured : Result LoadError Config
configured = ok config

abbrev outside : Outside
outside = record { opens = true; has_reaper = true; listen_fails = false; shuts_down = true }
