-- ===== src/Sandbox/Interface.antt =====
-- internal/sandbox/sandbox.go: the interface `Sandbox` and its optional parts `Pinger` and
-- `Informer`, as the HTTP layer sees one backend in the course of one request.
use runboxd.Base.{List, Option}
use runboxd.Base.Text.{Text}
use runboxd.Sandbox.Types.{RunSpec, RunResult, LangSpec, LanguageInfo}

-- The two errors that callers tell apart by `errors.Is`, and every other one.
pub data SandboxError : Type 0 where
  unsupported_language unsupported_version : SandboxError
  fault : Text → SandboxError

pub data Lookup {ℓ} (A : Type ℓ) : Type ℓ where
  found : A → Lookup A
  refused : SandboxError → Lookup A

pub record Sandbox : Type 0 where
  pub run : RunSpec → Lookup RunResult
  pub lang_spec : Text → Text → Lookup LangSpec
  -- `none`: the backend is no `Pinger`, no `Informer`
  pub ping : Option (Option SandboxError)
  pub info : Option (Lookup (List LanguageInfo))
