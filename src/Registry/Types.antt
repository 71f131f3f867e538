-- ===== src/Registry/Types.antt =====
-- internal/registry/registry.go: the structures of the registry.
use runboxd.Base.{List}
use runboxd.Base.Text.{Text}
use runboxd.Base.Map.{Map}
use runboxd.ImageSpec.Types.{Limits, CompileLimits}

pub record Version : Type 0 where
  pub name : Text
  pub image : Text
  pub run_cmd : List Text
  pub build_cmd : List Text

pub record Language : Type 0 where
  pub name : Text
  pub kind : Text  -- the field `Type`
  pub filename : Text
  pub default_version : Text
  pub env : Map Text
  pub limits : Limits
  pub compile_limits : CompileLimits
  pub versions : Map Version
