-- ===== src/Examples/Api.antt =====
-- internal/api: a request for one language whose limits are 1 to 10 seconds and 64 to 256 MiB.
use runboxd.Base.{◌≡◌, refl, ◌↔◌, ◌⊎◌, true, false, none, some, List, [], ◌∷◌, ◌++◌, arith}
use runboxd.Base.Int.{ℤ, pos, mul64, wrap64}
use runboxd.Base.Float.{finite}
use runboxd.Base.Text.{Text, text, is_empty, trim_space}
use runboxd.Sandbox.Types.{RunSpec, RunResult, Status}
use runboxd.Sandbox.Interface.{Sandbox, found}
use runboxd.Sandbox.Limits.{LangLimits}
use runboxd.Sandbox.Limits.Valid.{IsValid}
use runboxd.Sandbox.Clamp.{effective_timeout}
use runboxd.Api.Types.{ExecuteResponse, ExecuteRequest, WorkspaceFile, executed}
use runboxd.Api.Validation.{validate_timeout, validate_limits, validate_memory, requested_timeout}
use runboxd.Api.Validation.Accepts.{trimmed}
use runboxd.Api.Validation.Timeouts.{Within, validate_limits_iff, overlong_timeout}
use runboxd.Api.Execute.{decoded, handle_execute, to_run_spec}
use runboxd.Api.Execute.Answer.{Answers}
use runboxd.Api.Server.Auth.{MayRun, execute_route_run}
use runboxd.Api.Execute.Guards.{IsGuarded, handle_execute_run, handle_execute_ok}
use runboxd.Api.Server.{Server, admitted, authorized, auth_token_prefix, execute_route}
use runboxd.Api.Server.Auth.{authorized_iff}

abbrev limits : LangLimits
limits = record {
  min_timeout = pos 1000000000;
  max_timeout = pos 10000000000;
  min_memory_bytes = pos 67108864;
  max_memory_bytes = pos 268435456;
  max_pids = pos 64;
  max_cpus = finite false 1 (pos 0);
  workspace_size_bytes = pos 10485760;
  tmp_size_bytes = pos 5242880;
}

abbrev limits_valid : IsValid limits
limits_valid = record {
  timeout_nonneg = omega arith;
  timeout_ordered = omega arith;
  memory_nonneg = omega arith;
  memory_ordered = omega arith;
  some_pids = omega arith;
  cpus_positive = refl;
  cpus_finite = refl;
  some_workspace = omega arith;
  some_tmp = omega arith;
}

abbrev files : List WorkspaceFile
files = record { path = text "a/b"; content = text "x" } ∷ []

-- A request for a number of seconds and no amount of memory.
abbrev request_for : ℤ → ExecuteRequest
request_for seconds = record {
  language = text "c";
  version = [];
  code = text "1";
  stdin = [];
  workspace_files = files;
  timeout_seconds = seconds;
  memory_bytes = pos 0;
}

abbrev pub request : ExecuteRequest
request = request_for (pos 2)

abbrev result : RunResult
result = record {
  stdout = [];
  stderr = [];
  exit_code = pos 0;
  status = Status.ok;
  duration = pos 5;
}

abbrev backend : Sandbox
backend = record {
  run = λ _. found result;
  lang_spec = λ _ _. found (record { filename = text "main.c"; limits = limits });
  ping = none;
  info = none;
}

validate_limits_iff_example : (validate_limits request limits ≡ none) ↔ (
    ((request.timeout_seconds ≡ pos 0)
      ⊎ Within limits.min_timeout limits.max_timeout (requested_timeout request))
    × ((request.memory_bytes ≡ pos 0)
        ⊎ Within limits.min_memory_bytes limits.max_memory_bytes request.memory_bytes))
validate_limits_iff_example = validate_limits_iff request limits

request_in_limits : validate_limits request limits ≡ none
unfolding validate_limits validate_timeout validate_memory mul64 wrap64
request_in_limits = refl

abbrev overlong : ExecuteRequest
overlong = request_for (pos 18446744075)

overlong_timeout_example :
    (validate_timeout overlong limits ≡ none)
    × (effective_timeout (requested_timeout overlong) limits ≡ pos 1290448384)
overlong_timeout_example =
    overlong_timeout overlong limits 18446744075 1 1290448384 refl refl (omega arith) (omega arith)
      limits_valid (omega arith, omega arith)

handle_execute_run_example :
    ((handle_execute backend (pos 7) (decoded request)).ran ≡ some (to_run_spec (trimmed request)))
    ↔ IsGuarded backend (decoded request) (to_run_spec (trimmed request))
handle_execute_run_example =
    handle_execute_run backend (pos 7) (decoded request) (to_run_spec (trimmed request))

handle_execute_ok_example :
    ((handle_execute backend (pos 7) (decoded request)).response.code ≡ 200) ↔ (
      (rs : RunSpec) × (res : RunResult) × (body : ExecuteResponse) × IsGuarded backend
        (decoded request)
        rs
      × (backend.run rs ≡ found res)
      × ((handle_execute backend (pos 7) (decoded request)).response.body ≡ executed body)
      × Answers res (pos 7) body)
handle_execute_ok_example = handle_execute_ok backend (pos 7) (decoded request)

abbrev server : Server
server = record { auth_token = text "abc"; supports_info = false; info = none }

authorized_iff_example : (authorized (text "abc") (text "Bearer abc ") ≡ true) ↔ (
    (rest : Text) × (text "Bearer abc " ≡ auth_token_prefix ++ rest)
    × (trim_space rest ≡ text "abc")
    × (is_empty (text "abc") ≡ false))
authorized_iff_example = authorized_iff (text "abc") (text "Bearer abc ")

execute_route_run_example :
    ((execute_route server
        (text "Bearer abc")
        admitted
        (handle_execute backend (pos 7) (decoded request))).ran
      ≡ some (to_run_spec (trimmed request)))
    ↔ (MayRun (text "abc") (text "Bearer abc")
        × (admitted ≡ admitted)
        × IsGuarded backend (decoded request) (to_run_spec (trimmed request)))
execute_route_run_example =
    execute_route_run server backend (pos 7) (text "Bearer abc") admitted (decoded request)
      (to_run_spec (trimmed request))
