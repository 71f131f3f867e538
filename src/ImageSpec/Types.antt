-- ===== src/ImageSpec/Types.antt =====
-- internal/imagespec/imagespec.go: the structures of an image specification.
use runboxd.Base.{List, Option}
use runboxd.Base.Int.{ℤ}
use runboxd.Base.Float.{Float64}
use runboxd.Base.Text.{Text}
use runboxd.Base.Map.{Map}

-- Zero means that a limit is not set.
pub record Limits : Type 0 where
  pub min_memory_mib : ℤ
  pub max_memory_mib : ℤ
  pub min_timeout_seconds : ℤ
  pub max_timeout_seconds : ℤ
  pub max_pids : ℤ
  pub max_cpus : Float64
  pub workspace_size_mib : ℤ
  pub tmp_size_mib : ℤ

pub record CompileLimits : Type 0 where
  pub memory_mib : ℤ
  pub timeout_seconds : ℤ
  pub max_pids : ℤ
  pub max_cpus : Float64
  pub workspace_size_mib : ℤ
  pub tmp_size_mib : ℤ

pub record Version : Type 0 where
  pub base_image : Text
  pub build_cmd : List Text
  pub run_cmd : List Text

pub record ImageSpec : Type 0 where
  pub name : Text
  pub kind : Text  -- the field `Type`
  pub filename : Text
  pub default_version : Text
  pub env : Map Text
  pub limits : Limits
  pub compile_limits : CompileLimits
  pub setup : List Text
  pub versions : Map Version

-- language -> requested versions; `none` is a nil slice, which asks for all versions
abbrev pub LangFilter : Type 0
LangFilter = Map (Option (List Text))
