-- ===== src/Api/Types.antt =====
-- internal/api/dto.go, errors.go and response.go: requests, responses and errors. An error's text
-- is a constructor for its format string, with the values that are printed.
use runboxd.Base.{ℕ, List, Option, none, some, Bool}
use runboxd.Base.Int.{ℤ}
use runboxd.Base.Float.{Float64}
use runboxd.Base.Text.{Text}
use runboxd.Sandbox.Types.{Status}

pub record WorkspaceFile : Type 0 where
  pub path : Text
  pub content : Text

pub record ExecuteRequest : Type 0 where
  pub language : Text
  pub version : Text
  pub code : Text
  pub stdin : Text
  pub workspace_files : List WorkspaceFile
  pub timeout_seconds : ℤ
  pub memory_bytes : ℤ

pub record ExecuteResponse : Type 0 where
  pub stdout : Text
  pub stderr : Text
  pub exit_code : ℤ
  pub status : Status
  pub duration_ms : ℤ

pub record LimitsResponse : Type 0 where
  pub min_timeout_seconds : ℤ
  pub max_timeout_seconds : ℤ
  pub min_memory_bytes : ℤ
  pub max_memory_bytes : ℤ
  pub max_pids : ℤ
  pub max_cpus : Float64

pub record LanguageInfoResponse : Type 0 where
  pub name : Text
  pub default_version : Text
  pub versions : List Text
  pub filename : Text
  pub limits : LimitsResponse

pub record WorkspaceLimitsResponse : Type 0 where
  pub max_files : ℕ
  pub max_file_size_bytes : ℕ

pub record InfoResponse : Type 0 where
  pub languages : List LanguageInfoResponse
  pub workspace : WorkspaceLimitsResponse

pub data Message : Type 0 where
  language_required code_required negative_timeout negative_memory : Message
  too_many_files : Message
  path_not_local : Text → Message
  file_too_large : Text → Message
  timeout_out_of_range : (lo hi : ℤ) → Message
  memory_out_of_range : (lo hi : ℤ) → Message
  unsupported_language unsupported_version execution_failed info_failed : Message
  body_too_large invalid_json : Message
  unauthorized pool_full timed_out_waiting : Message

-- `Err`, the cause that is only logged, is left out.
pub record ApiError : Type 0 where
  pub status : ℕ
  pub msg : Message

pub data Result {ℓ} (A : Type ℓ) : Type ℓ where
  ok : A → Result A
  err : ApiError → Result A

infixl 5 ◌>>=◌
abbrev pub ◌>>=◌ {ℓ κ} : {A : Type ℓ} {B : Type κ} → Result A → (A → Result B) → Result B
ok a >>= f = f a
err e >>= f = err e

abbrev pub bad_request : Message → ApiError
bad_request m = record { status = 400; msg = m }

abbrev pub internal_error : Message → ApiError
internal_error m = record { status = 500; msg = m }

-- A check that returns a nil error or an error.
abbrev pub checked {ℓ} : {A : Type ℓ} → A → Option Message → Result A
checked a none = ok a
checked a (some m) = err (bad_request m)

pub data Body : Type 0 where
  state : (ready : Bool) → Body
  info : InfoResponse → Body
  executed : ExecuteResponse → Body
  failed : Message → Body

pub record Response : Type 0 where
  pub code : ℕ
  pub body : Body
