-- ===== src/Sandbox/Docker/Host.antt =====
-- internal/sandbox/docker.go: `getHostConfig`, the confinement of a container.
use runboxd.Base.{ℕ, Bool, true, false, List, [], ◌∷◌, if◌then◌else◌}
use runboxd.Base.Int.{ℤ, pos}
use runboxd.Base.Float.{ceil_times}
use runboxd.Base.Text.{Text, text, text_eq}
use runboxd.FilePath.{join_path}
use runboxd.Sandbox.Types.{RunSpec}
use runboxd.Sandbox.Clamp.{effective_memory_bytes}
use runboxd.Sandbox.Entries.{LangEntry}
use runboxd.Sandbox.Workspace.{AbsPath}

-- The options of a file system in memory, with the size in bytes.
pub record Tmpfs : Type 0 where
  pub target : Text
  pub size : ℤ
  pub exec : Bool
  pub mode : ℕ
  pub flags : List Text

pub record Mount : Type 0 where
  pub bind_source : AbsPath
  pub target : Text
  pub read_only : Bool

-- The driver and its options "max-size" and "max-file".
pub record LogConfig : Type 0 where
  pub driver : Text
  pub max_size : Text
  pub max_file : Text

pub record HostConfig : Type 0 where
  pub pids_limit : ℤ
  pub nano_cpus : ℤ
  pub cap_drop : List Text
  pub security_opt : List Text
  pub network_mode : Text
  pub readonly_rootfs : Bool
  pub tmpfs : List Tmpfs
  pub mounts : List Mount
  pub log_config : LogConfig
  pub memory : ℤ
  pub memory_swap : ℤ

abbrev noexec : Text → ℤ → Tmpfs
noexec target size = record { target = target; size = size; exec = false; mode = 1777; flags = [] }

-- "size=10m,exec,mode=1777,nosuid,nodev"
abbrev build_tmpfs : Tmpfs
build_tmpfs = record {
  target = text "/build";
  size = pos 10485760;
  exec = true;
  mode = 1777;
  flags = text "nosuid" ∷ text "nodev" ∷ [];
}

unfoldable pub get_host_config : RunSpec → LangEntry → AbsPath → HostConfig
get_host_config spec entry temp =
    let memory = effective_memory_bytes spec.memory_bytes entry.limits in
    record {
      pids_limit = entry.limits.max_pids;
      nano_cpus = ceil_times entry.limits.max_cpus 1000000000;
      cap_drop = text "ALL" ∷ [];
      security_opt = text "no-new-privileges:true" ∷ [];
      network_mode = text "none";
      readonly_rootfs = true;
      tmpfs =
          noexec (text "/sandbox") entry.limits.workspace_size_bytes
          ∷ noexec (text "/tmp") entry.limits.tmp_size_bytes
          ∷ (if text_eq entry.lang_type (text "compiled") then build_tmpfs ∷ [] else []);
      mounts =
          record {
            bind_source = join_path temp (text "/input");
            target = text "/input";
            read_only = true;
          }
          ∷ [];
      log_config = record { driver = text "json-file"; max_size = text "3m"; max_file = text "1" };
      memory = memory;
      memory_swap = memory;
    }
