-- ===== src/Api/Execute.antt =====
-- internal/api/api.go: `handleExecute`, and `handle` and `readBody` of errors.go around it.
pub mod Answer
pub mod Guards
pub mod Granted
use runboxd.Base.{ℕ, ◌/◌, ◌+◌, ◌*◌, Option, none, some, List, [], map, if◌then◌else◌}
use runboxd.Base.Int.{ℤ, pos, negsuc, sub_ℕ, eqb_ℤ}
use runboxd.Sandbox.Types.{RunSpec, RunResult, LangSpec}
use runboxd.Sandbox.Types as T
use runboxd.Sandbox.Interface.{
  Sandbox, SandboxError, unsupported_language, unsupported_version, fault, Lookup, found, refused,
}
use runboxd.Api.Types.{
  ExecuteRequest, ExecuteResponse, WorkspaceFile, Message, ApiError, Result, ok, err, ◌>>=◌,
  checked, bad_request, internal_error, Response, executed, failed, execution_failed,
  body_too_large, invalid_json,
}
use runboxd.Api.Validation.{validate_execute_request_basic, validate_limits, requested_timeout}

-- How the JSON decoder ends on the body of a request, which is cut off at 1 MiB.
pub data Decoded : Type 0 where
  decoded : ExecuteRequest → Decoded
  too_large malformed : Decoded

unfoldable pub read_body : Decoded → Result ExecuteRequest
read_body (decoded req) = ok req
read_body too_large = err (record { status = 413; msg = body_too_large })
read_body malformed = err (bad_request invalid_json)

unfoldable pub map_run_error : SandboxError → ApiError
map_run_error unsupported_language = bad_request Message.unsupported_language
map_run_error unsupported_version = bad_request Message.unsupported_version
map_run_error (fault cause) = internal_error execution_failed

abbrev pub or_map {ℓ} : {A : Type ℓ} → Lookup A → Result A
or_map (found a) = ok a
or_map (refused e) = err (map_run_error e)

unfoldable pub to_sandbox_workspace_files : List WorkspaceFile → List T.WorkspaceFile
to_sandbox_workspace_files = map λ f. record { path = f.path; content = f.content }

unfoldable pub to_run_spec : ExecuteRequest → RunSpec
to_run_spec req = record {
  language = req.language;
  version = req.version;
  code = req.code;
  workspace_files = to_sandbox_workspace_files req.workspace_files;
  stdin = req.stdin;
  timeout = requested_timeout req;
  memory_bytes = req.memory_bytes;
}

-- The handler up to its call of `Run`: the run that it asks for, or the error of the first guard
-- that fails.
unfoldable pub prepare : Sandbox → Decoded → Result RunSpec
prepare sb d = do
  req ← read_body d
  req' ← validate_execute_request_basic req
  ls ← or_map (sb.lang_spec req'.language req'.version)
  checked (to_run_spec req') (validate_limits req' ls.limits)

-- `d.Milliseconds()`
unfoldable pub milliseconds : ℤ → ℤ
milliseconds (pos n) = pos (n / 1000000)
milliseconds (negsuc n) = sub_ℕ 0 ((n + 1) / 1000000)

unfoldable pub to_response : RunResult → ℤ → ExecuteResponse
unfolding milliseconds
to_response result elapsed =
    let ms : ℤ = milliseconds result.duration in
    record {
      stdout = result.stdout;
      stderr = result.stderr;
      exit_code = result.exit_code;
      status = result.status;
      duration_ms = if eqb_ℤ ms (pos 0) then milliseconds elapsed else ms;
    }

-- `handle`: an error becomes a response with its status and its text.
unfoldable pub handle : Result Response → Response
handle (ok r) = r
handle (err e) = record { code = e.status; body = failed e.msg }

-- What one request leads to: the response, and the run that was asked of the backend, if any.
pub record Outcome : Type 0 where
  pub response : Response
  pub ran : Option RunSpec

-- `elapsed` is the time from just before the call of `Run` to the response.
unfoldable pub handle_execute : Sandbox → ℤ → Decoded → Outcome
unfolding handle
handle_execute sb elapsed d = elim (prepare sb d) [
  | err e ↦ record { response = handle (err e); ran = none }
  | ok spec ↦ record {
    response = handle (elim (sb.run spec) [
      | refused e ↦ err (map_run_error e)
      | found result ↦ ok (record { code = 200; body = executed (to_response result elapsed) })
    ]);
    ran = some spec;
  }
]
