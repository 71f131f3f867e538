-- ===== src/Api/Server.antt =====
-- internal/api/api.go and auth.go: the server's state, its routes and its middleware.
pub mod Auth
use runboxd.Base.{
  ℕ, ◌+◌, ◌/◌, Bool, true, false, not, ◌||◌, Option, none, some, List, [], map, if◌then◌else◌,
}
use runboxd.Base.Int.{ℤ, pos, negsuc, sub_ℕ}
use runboxd.Base.Text.{Text, text, text_eq, is_empty, cut_prefix, trim_space}
use runboxd.Sandbox.Types.{LanguageInfo}
use runboxd.Sandbox.Interface.{Sandbox, Lookup, found, refused}
use runboxd.Api.Types.{
  LanguageInfoResponse, InfoResponse, Result, ok, err, internal_error, Response, Body, state, info,
  failed, info_failed, unauthorized, pool_full, timed_out_waiting,
}
use runboxd.Api.Validation.{max_workspace_files, max_workspace_file_size}
use runboxd.Api.Execute.{Decoded, Outcome, handle, handle_execute}

-- The logger, the pool and the sandbox of `Server` are arguments of the handlers below.
pub record Server : Type 0 where
  pub auth_token : Text
  pub supports_info : Bool
  pub info : Option (List LanguageInfo)

-- `sb` is the backend at the time of the call.
unfoldable pub new_server : Text → Sandbox → Server
new_server token sb = elim sb.info [
  | none ↦ record { auth_token = token; supports_info = false; info = none }
  | some (refused e) ↦ record { auth_token = token; supports_info = true; info = none }
  | some (found langs) ↦ record { auth_token = token; supports_info = true; info = some langs }
]

unfoldable pub handle_healthz : Response
handle_healthz = record { code = 200; body = state true }

unfoldable pub handle_readyz : Sandbox → Response
handle_readyz sb = elim sb.ping [
  | some (some e) ↦ record { code = 503; body = state false }
  | some none ↦ record { code = 200; body = state true }
  | none ↦ record { code = 200; body = state true }
]

-- int64(d.Seconds())
abbrev whole_seconds : ℤ → ℤ
whole_seconds (pos n) = pos (n / 1000000000)
whole_seconds (negsuc n) = sub_ℕ 0 ((n + 1) / 1000000000)

unfoldable pub to_language_info_responses : List LanguageInfo → List LanguageInfoResponse
to_language_info_responses = map λ l. record {
  name = l.name;
  default_version = l.default_version;
  versions = l.versions;
  filename = l.filename;
  limits = record {
    min_timeout_seconds = whole_seconds l.limits.min_timeout;
    max_timeout_seconds = whole_seconds l.limits.max_timeout;
    min_memory_bytes = l.limits.min_memory_bytes;
    max_memory_bytes = l.limits.max_memory_bytes;
    max_pids = l.limits.max_pids;
    max_cpus = l.limits.max_cpus;
  };
}

-- The languages that `handleInfo` reports: those read at the start, or those read now.
unfoldable pub known_languages : Server → Sandbox → Result (List LanguageInfo)
known_languages s sb = elim s.info [
  | some langs ↦ ok langs
  | none ↦ if not s.supports_info then ok [] else elim sb.info [
    | none ↦ ok []
    | some (refused e) ↦ err (internal_error info_failed)
    | some (found langs) ↦ ok langs
  ]
]

unfoldable pub handle_info : Server → Sandbox → Response
unfolding handle
handle_info s sb = handle (elim (known_languages s sb) [
  | err e ↦ err e
  | ok langs ↦ ok (record {
    code = 200;
    body = info (record {
      languages = to_language_info_responses langs;
      workspace = record {
        max_files = max_workspace_files;
        max_file_size_bytes = max_workspace_file_size;
      };
    });
  })
])

abbrev pub auth_token_prefix : Text
auth_token_prefix = text "Bearer "

-- The test of `requireAuth` on the header `Authorization`.
unfoldable pub authorized : Text → Text → Bool
authorized auth_token h = elim (cut_prefix h auth_token_prefix) [
  | none ↦ false
  | some rest ↦
      let token : Text = trim_space rest in not (is_empty token || not (text_eq token auth_token))
]

-- How the worker pool's middleware lets a request go on, or not (Api/Pool).
pub data Admission : Type 0 where
  admitted full gave_up : Admission

unfoldable pub pool_middleware : Admission → Outcome → Outcome
pool_middleware admitted next = next
pool_middleware full next = record {
  response = record { code = 429; body = failed pool_full };
  ran = none;
}
pool_middleware gave_up next = record {
  response = record { code = 408; body = failed timed_out_waiting };
  ran = none;
}

unfoldable pub require_auth : Text → Text → Outcome → Outcome
require_auth auth_token h next =
    if authorized auth_token h
    then next
    else record { response = record { code = 401; body = failed unauthorized }; ran = none }

-- `POST /execute` as `Routes` puts it together.
unfoldable pub execute_route : Server → Text → Admission → Outcome → Outcome
execute_route s h a handler =
    if is_empty s.auth_token
    then pool_middleware a handler
    else require_auth s.auth_token h (pool_middleware a handler)
