-- ===== src/Config.antt =====
-- internal/config/config.go, read from the environment, and `getSandboxConfig` of cmd/runboxd/main.go
-- with `New` of internal/sandbox/factory.go, which choose the backend.
pub mod Load
pub mod Daemon
use runboxd.Base.{Bool, true, false, not, ◌&&◌, ◌||◌, Option, none, some, [], if◌then◌else◌}
use runboxd.Base.Int.{ℤ, pos, ltb_ℤ}
use runboxd.Base.Text.{Text, text, text_eq, is_empty}
use runboxd.Base.Map.{Map, lookup}
use runboxd.Base.Result.{Result, ok, err}

pub record Config : Type 0 where
  pub port : Text
  pub registry_path : Text
  pub worker_pool_size : ℤ
  pub max_queue_size : ℤ
  pub sandbox_backend : Text
  pub nsjail_path : Text
  pub rootfs_path : Text
  pub cgroup_v2_mount : Text
  pub auth_token : Text
  pub auth_allow_unauthenticated : Bool

abbrev pub text_or_empty : Option Text → Text
text_or_empty none = []
text_or_empty (some value) = value

-- `os.Getenv`, empty where the variable is not set.
unfoldable pub getenv : Map Text → Text → Text
getenv env key = text_or_empty (lookup key env)

unfoldable pub get_env_or_default : Map Text → Text → Text → Text
get_env_or_default env key default_value =
    let value = getenv env key in if is_empty value then default_value else value

-- `strconv.Atoi`, none where it fails.
abbrev pub Atoi : Type 0
Atoi = Text → Option ℤ

abbrev pub at_least : (default_value min_value : ℤ) → Option ℤ → ℤ
at_least default_value min_value none = default_value
at_least default_value min_value (some value) =
    if ltb_ℤ value min_value then default_value else value

unfoldable pub parse_int_env_or_default : Atoi → Map Text → Text → (default_value min_value : ℤ) → ℤ
parse_int_env_or_default atoi env key default_value min_value =
    let value_str = getenv env key in
    if is_empty value_str then default_value else at_least default_value min_value (atoi value_str)

unfoldable pub from_env : Atoi → (num_cpu : ℤ) → Map Text → Config
from_env atoi num_cpu env = record {
  port = get_env_or_default env (text "PORT") (text "8080");
  registry_path = get_env_or_default env (text "REGISTRY_PATH") (text "./language_registry.yml");
  worker_pool_size = parse_int_env_or_default atoi env (text "WORKER_POOL_SIZE") num_cpu (pos 1);
  max_queue_size = parse_int_env_or_default atoi env (text "MAX_QUEUE_SIZE") num_cpu (pos 0);
  sandbox_backend = get_env_or_default env (text "SANDBOX_BACKEND") (text "docker");
  nsjail_path = get_env_or_default env (text "NSJAIL_PATH") [];
  rootfs_path = get_env_or_default env (text "ROOTFS_PATH") (text "./_rootfs");
  cgroup_v2_mount = get_env_or_default env (text "CGROUP_V2_MOUNT") [];
  auth_token = get_env_or_default env (text "AUTH_TOKEN") [];
  auth_allow_unauthenticated =
      text_eq (get_env_or_default env (text "AUTH_ALLOW_UNAUTHENTICATED") (text "false"))
        (text "true");
}

pub data LoadError : Type 0 where
  auth_token_required : LoadError

unfoldable pub load : Atoi → (num_cpu : ℤ) → Map Text → Result LoadError Config
load atoi num_cpu env =
    let cfg = from_env atoi num_cpu env in
    if is_empty cfg.auth_token && not cfg.auth_allow_unauthenticated
    then err auth_token_required
    else ok cfg

-- `DockerSandboxConfig` and `NsjailSandboxConfig`.
pub data SandboxConfig : Type 0 where
  docker : (registry_path : Text) → SandboxConfig
  nsjail : (registry_path nsjail_path rootfs_root cgroup_override : Text) → SandboxConfig

pub data BackendError : Type 0 where
  unsupported_backend : Text → BackendError

unfoldable pub get_sandbox_config : Config → Result BackendError SandboxConfig
get_sandbox_config cfg =
    if text_eq cfg.sandbox_backend (text "docker")
    then ok (docker cfg.registry_path)
    else if text_eq cfg.sandbox_backend (text "nsjail")
    then ok (nsjail cfg.registry_path cfg.nsjail_path cfg.rootfs_path cfg.cgroup_v2_mount)
    else err (unsupported_backend cfg.sandbox_backend)
