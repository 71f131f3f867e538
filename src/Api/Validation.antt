-- ===== src/Api/Validation.antt =====
-- internal/api/api.go: the checks of a request, before and after its language is known.
pub mod Accepts
pub mod Timeouts
use runboxd.Base.{
  ℕ, ◌≤◌, ◌<◌, ◌≡◌, refl, ◌≢◌, Bool, true, false, not, ◌&&◌, ◌||◌, Option, none, some, List, [],
  ◌∷◌, arith, ltb, if◌then◌else◌, length, first_error, All,
}
use runboxd.Base.Int.{ℤ, pos, ltb_ℤ, eqb_ℤ, mul64}
use runboxd.Base.Text.{Text, is_empty, trim_space}
use runboxd.FilePath.{is_local}
use runboxd.Sandbox.Limits.{LangLimits, second}
use runboxd.Api.Types.{
  ExecuteRequest, WorkspaceFile, Message, Result, checked, language_required, code_required,
  negative_timeout, negative_memory, too_many_files, path_not_local, file_too_large,
  timeout_out_of_range, memory_out_of_range,
}

abbrev pub max_workspace_files : ℕ
max_workspace_files = 12

abbrev pub max_workspace_file_size : ℕ
max_workspace_file_size = 102400

-- the loop of `validateWorkspaceFiles`
validate_each_file : List WorkspaceFile → Option Message
validate_each_file [] = none
validate_each_file (f ∷ fs) =
    if not (is_local f.path)
    then some (path_not_local f.path)
    else if ltb max_workspace_file_size (length f.content)
    then some (file_too_large f.path)
    else validate_each_file fs

unfoldable pub validate_workspace_files : List WorkspaceFile → Option Message
unfolding validate_each_file
validate_workspace_files files =
    if ltb max_workspace_files (length files) then some too_many_files else validate_each_file files

-- The request with the spaces around its language and version taken off, or the first error.
unfoldable pub validate_execute_request_basic : ExecuteRequest → Result ExecuteRequest
validate_execute_request_basic req =
    let req' : ExecuteRequest = record req {
      language = trim_space req.language;
      version = trim_space req.version;
    } in
    let files : Option Message = validate_workspace_files req.workspace_files in
    checked req' (
      if is_empty (trim_space req.language)
      then some language_required
      else if is_empty req.code
      then some code_required
      else if ltb_ℤ req.timeout_seconds (pos 0)
      then some negative_timeout
      else if ltb_ℤ req.memory_bytes (pos 0)
      then some negative_memory
      else files)

-- time.Duration(req.TimeoutSeconds) * time.Second
abbrev pub requested_timeout : ExecuteRequest → ℤ
requested_timeout req = mul64 req.timeout_seconds second

unfoldable pub validate_timeout : ExecuteRequest → LangLimits → Option Message
validate_timeout req limits =
    let timeout : ℤ = requested_timeout req in
    if not (eqb_ℤ req.timeout_seconds (pos 0))
      && (ltb_ℤ timeout limits.min_timeout || ltb_ℤ limits.max_timeout timeout)
    then some (timeout_out_of_range limits.min_timeout limits.max_timeout)
    else none

unfoldable pub validate_memory : ExecuteRequest → LangLimits → Option Message
validate_memory req limits =
    if not (eqb_ℤ req.memory_bytes (pos 0))
      && (ltb_ℤ req.memory_bytes limits.min_memory_bytes
          || ltb_ℤ limits.max_memory_bytes req.memory_bytes)
    then some (memory_out_of_range limits.min_memory_bytes limits.max_memory_bytes)
    else none

unfoldable pub validate_limits : ExecuteRequest → LangLimits → Option Message
validate_limits req limits = elim (validate_timeout req limits) [
  | some m ↦ some m
  | none ↦ validate_memory req limits
]
