-- ===== src/Sandbox/Types.antt =====
-- internal/sandbox/sandbox.go: the types of the isolation boundary. A duration is in nanoseconds.
use runboxd.Base.{List}
use runboxd.Base.Int.{ℤ}
use runboxd.Base.Text.{Text}
use runboxd.Sandbox.Limits.{LangLimits}

pub data Status : Type 0 where
  ok runtime_error timeout oom internal_error compile_error : Status

pub record WorkspaceFile : Type 0 where
  pub path : Text
  pub content : Text

pub record RunSpec : Type 0 where
  pub language : Text
  pub version : Text
  pub code : Text
  pub workspace_files : List WorkspaceFile
  pub stdin : Text
  pub timeout : ℤ
  pub memory_bytes : ℤ

pub record RunResult : Type 0 where
  pub stdout : Text
  pub stderr : Text
  pub exit_code : ℤ
  pub status : Status
  pub duration : ℤ

pub record LanguageInfo : Type 0 where
  pub name : Text
  pub default_version : Text
  pub versions : List Text
  pub filename : Text
  pub limits : LangLimits

pub record LangSpec : Type 0 where
  pub filename : Text
  pub limits : LangLimits
