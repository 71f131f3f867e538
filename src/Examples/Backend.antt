-- ===== src/Examples/Backend.antt =====
-- internal/sandbox/factory.go: a start of each backend, and a request to the one on Docker.
use runboxd.Base.{◌≡◌, refl, true, false, none, some, [], ◌∷◌, arith}
use runboxd.Base.Int.{pos, mul64, wrap64}
use runboxd.Base.Text.{Text, text, text_eq, trim_space, split}
use runboxd.Base.Map.{lookup}
use runboxd.FilePath.{is_local, stays_inside, clean, rel_walk, rel_step, classify}
use runboxd.Config.{docker}
use runboxd.Sandbox.Interface.{Sandbox, found}
use runboxd.Sandbox.Limits.{resolve_lang_limits, value_with_default, resolve_lang_compile_limits}
use runboxd.Sandbox.Entries.{lookup_spec, with_entry, with_spec, lang_spec}
use runboxd.Sandbox.Docker.{run}
use runboxd.Sandbox.Docker.Reaper.{present}
use runboxd.Sandbox.Nsjail.Config.{NsjailCfgData, nsjail_cfg_data}
use runboxd.Sandbox.Nsjail.Config as C
use runboxd.Sandbox.Factory.{
  Load, DockerHost, NsjailHost, DockerSandbox, NsjailSandbox, by_value, new, docker_sandbox,
}
use runboxd.Sandbox.Factory.Ready.{Sound, has_client, new-Ready}
use runboxd.Api.Validation.{validate_limits, validate_timeout, validate_memory}
use runboxd.Api.Validation.Accepts.{IsChecked, trimmed}
use runboxd.Api.Execute.{decoded, to_run_spec, handle_execute}
use runboxd.Api.Execute.Guards.{handle_execute_run}
use runboxd.Api.Execute.Granted.{Granted}
use runboxd.Examples.Run.{entry, language, table, daemon, works, temp}
use runboxd.Examples.Api.{request}
use runboxd.Examples.Start.{calls, host, ns, show}

abbrev load : Load
load path = some ((text "c", language) ∷ [])

abbrev pub docker_host : DockerHost
docker_host = record {
  client_made = true;
  inspect_image = λ image. present;
  pulls = λ image. false;
  drains = λ image. false;
}

abbrev pub nsjail_host : NsjailHost
nsjail_host = record {
  look_path = some (text "/bin/nsjail");
  abs = λ path. some (path ∷ []);
  exists = λ path. true;
  cgroup_calls = calls;
  cgroup_host = host;
}

abbrev sandbox : DockerSandbox
sandbox = record { specs = table }

abbrev backend : Sandbox
backend = docker_sandbox works temp daemon true sandbox

supported :
    backend.lang_spec (trimmed request).language (trimmed request).version
    ≡ found (record { filename = text "m.c"; limits = resolve_lang_limits language.limits })
unfolding docker_sandbox lang_spec lookup_spec with_entry with_spec lookup text_eq trim_space
supported = refl

request_in_limits : validate_limits (trimmed request) (resolve_lang_limits language.limits) ≡ none
unfolding validate_limits validate_timeout validate_memory mul64 wrap64 resolve_lang_limits
    value_with_default
request_in_limits = refl

checked : IsChecked (trimmed request)
unfolding is_local stays_inside clean rel_walk rel_step classify trim_space split
checked = record {
  has_language = refl;
  has_code = refl;
  timeout_nonneg = omega arith;
  memory_nonneg = omega arith;
  few_files = omega arith;
  files_allowed = ((refl, omega arith), tt);
}

asked :
    (handle_execute backend (pos 7) (decoded request)).ran ≡ some (to_run_spec (trimmed request))
asked =
    (handle_execute_run backend (pos 7) (decoded request) (to_run_spec (trimmed request))).1
      (record {
        req = request;
        ls = record { filename = text "m.c"; limits = resolve_lang_limits language.limits };
        decodes = refl;
        is_checked = checked;
        supported = supported;
        in_limits = request_in_limits;
        spec_eq = refl;
      })

new-Ready_example :
    Sound (new load docker_host nsjail_host none (by_value (docker (text "r")))).result
    × ((new load docker_host nsjail_host none (by_value (docker (text "r")))).client_open
        ≡ has_client (new load docker_host nsjail_host none (by_value (docker (text "r")))).result)
new-Ready_example = new-Ready load docker_host nsjail_host none (by_value (docker (text "r")))

abbrev jailed : NsjailSandbox
jailed = record {
  nsjail_path = text "/bin/nsjail";
  rootfs_root = text "rootfs" ∷ [];
  specs =
      (
        text "c",
        record entry {
          limits = resolve_lang_limits language.limits;
          compile_limits = resolve_lang_compile_limits language.compile_limits;
        },
      )
      ∷ [];
  cgroup_mount = text "/c";
}

abbrev data_of : NsjailCfgData
data_of = record (nsjail_cfg_data show ns (pos 1500000000) (pos 67108864) [] temp C.run) {
  cgroup_mount = text "/c";
}
