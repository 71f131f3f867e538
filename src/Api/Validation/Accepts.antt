-- ===== src/Api/Validation/Accepts.antt =====
-- internal/api/api.go: which requests `validateExecuteRequestBasic` lets through.
use runboxd.Base.{◌≤◌, ◌≡◌, refl, subst, ◌↔◌, true, false, none, List, [], ◌∷◌, arith, length, All}
use runboxd.Base.Int.{pos, ◌≤ℤ◌}
use runboxd.Base.Text.{is_empty, trim_space}
use runboxd.FilePath.{is_local}
use runboxd.Api.Types.{ExecuteRequest, WorkspaceFile, ok}
use runboxd.Api.Validation.{
  max_workspace_files, max_workspace_file_size, validate_each_file, validate_workspace_files,
  validate_execute_request_basic,
}

-- A file that may be put into the workspace.
abbrev pub FileAllowed : WorkspaceFile → Type 0
FileAllowed f = (is_local f.path ≡ true) × (length f.content ≤ max_workspace_file_size)

validate_each_file-none :
    (fs : List WorkspaceFile) → validate_each_file fs ≡ none → All FileAllowed fs
unfolding validate_each_file
validate_each_file-none [] h = tt
validate_each_file-none (f ∷ fs) h = ground (arith, validate_each_file-none fs)

none-validate_each_file :
    (fs : List WorkspaceFile) → All FileAllowed fs → validate_each_file fs ≡ none
unfolding validate_each_file
none-validate_each_file [] h = refl
none-validate_each_file (f ∷ fs) h = ground (arith, none-validate_each_file fs)

-- The workspace of a request is accepted exactly when it has at most twelve files, each with a
-- local path and at most 100 KB of content.
pub validate_workspace_files_iff :
    (fs : List WorkspaceFile)
    → (validate_workspace_files fs ≡ none)
      ↔ ((length fs ≤ max_workspace_files) × All FileAllowed fs)
unfolding validate_workspace_files
validate_workspace_files_iff fs = (
  λ h. ground (arith, validate_each_file-none fs),
  λ h. ground (arith, none-validate_each_file fs),
)

-- What the handler knows of a request that passed the first checks.
pub record IsChecked (r : ExecuteRequest) : Type 0 where
  pub has_language : is_empty r.language ≡ false
  pub has_code : is_empty r.code ≡ false
  pub timeout_nonneg : pos 0 ≤ℤ r.timeout_seconds
  pub memory_nonneg : pos 0 ≤ℤ r.memory_bytes
  pub few_files : length r.workspace_files ≤ max_workspace_files
  pub files_allowed : All FileAllowed r.workspace_files

-- The request with the spaces around language and version taken off.
abbrev pub trimmed : ExecuteRequest → ExecuteRequest
trimmed req = record req { language = trim_space req.language; version = trim_space req.version }

accepted-trimmed :
    (req r : ExecuteRequest) → validate_execute_request_basic req ≡ ok r → r ≡ trimmed req
unfolding validate_execute_request_basic
accepted-trimmed req r h = ground arith

accepted-IsChecked :
    (req r : ExecuteRequest) → validate_execute_request_basic req ≡ ok r → IsChecked (trimmed req)
unfolding validate_execute_request_basic
accepted-IsChecked req r h = ground (arith, (validate_workspace_files_iff req.workspace_files).0)

IsChecked-accepted :
    (req : ExecuteRequest)
    → IsChecked (trimmed req)
    → validate_execute_request_basic req ≡ ok (trimmed req)
unfolding validate_execute_request_basic
IsChecked-accepted req c =
    ground
      (arith, (validate_workspace_files_iff req.workspace_files).1 (c.few_files, c.files_allowed))

-- The first checks let a request through exactly when, its language and version trimmed, it names a
-- language, has code, asks for no negative time or memory, and has an acceptable workspace; what
-- the handler goes on with is the trimmed request.
pub validate_execute_request_basic_iff :
    (req r : ExecuteRequest)
    → (validate_execute_request_basic req ≡ ok r) ↔ ((r ≡ trimmed req) × IsChecked r)
validate_execute_request_basic_iff req r = (
  λ h. (accepted-trimmed req r h, rw (accepted-trimmed req r h) (accepted-IsChecked req r h)),
  λ h. rw h.0 (IsChecked-accepted req (subst IsChecked h.0 h.1)),
)
