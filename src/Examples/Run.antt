-- ===== src/Examples/Run.antt =====
-- internal/sandbox: one language with one version, and a run of it by either backend.
use runboxd.Base.{◌⊎◌, ◌≡◌, refl, ◌↔◌, true, false, none, some, [], ◌∷◌, All}
use runboxd.Base.Int.{pos}
use runboxd.Base.Text.{text, text_eq, split, contains}
use runboxd.Base.Map.{Map, lookup}
use runboxd.FilePath.{is_local, stays_inside, clean, rel_walk, rel_step, classify}
use runboxd.Registry.Types.{Language}
use runboxd.Sandbox.Types.{RunSpec, Status}
use runboxd.Sandbox.Limits.{resolve_lang_limits}
use runboxd.Sandbox.Limits.Resolve.{spec}
use runboxd.Sandbox.Entries.{
  VersionSpec, LangEntry, lookup_spec, with_entry, with_spec, no_compile_limits,
}
use runboxd.Sandbox.Workspace.{
  AbsPath, Works, setup_workspace, fill_workspace, fill_input, write_files, on_error,
}
use runboxd.Sandbox.Workspace.Contained.{IsContained, ops_of, setup_workspace-Contained}
use runboxd.Sandbox.Docker.{
  Daemon, run, run_found, run_in, in_workspace, in_container, start_and_wait, await, select,
  collect, report, first, deferred, failed, returned, exited, to_stdout, to_stderr,
}
use runboxd.Sandbox.Docker.Cleanup.{
  IsManaged, container_after, workspace_after, run-container, run-workspace,
}
use runboxd.Sandbox.Docker.Calls.{Meets}
use runboxd.Sandbox.Docker.Outcome.{Reports, run-Reports}
use runboxd.Sandbox.Docker.Confined.{Keeps, run-Keeps}
use runboxd.Sandbox.Nsjail.{
  Jail, Invocation, CmdEnd, exit_error, not_run, finish, stages, build_stage, built, run_stage,
  needs_build, timed_out_of, nsjail_hit_time_limit,
}
use runboxd.Sandbox.Nsjail as N
use runboxd.Sandbox.Nsjail.Stages.{status_of, finish_ok_iff, runs, stages-runs}
use runboxd.Examples.Sandbox.{limits, limits_valid, one_cpu, pieces}

abbrev pub entry : LangEntry
entry = record {
  default_version = text "13";
  lang_type = text "compiled";
  filename = text "m.c";
  env = [];
  limits = limits;
  compile_limits = record {
    memory_bytes = pos 0;
    timeout = pos 0;
    max_pids = pos 0;
    max_cpus = one_cpu;
    workspace_size_bytes = pos 0;
    tmp_size_bytes = pos 0;
  };
  versions =
      (
        text "13",
        record { image = text "c:13"; run_cmd = text "a" ∷ []; build_cmd = text "b" ∷ [] },
      )
      ∷ [];
}

abbrev specs : Map LangEntry
specs = (text "c", entry) ∷ []

abbrev run_spec : RunSpec
run_spec = record {
  language = text "c";
  version = [];
  code = text "1";
  workspace_files = record { path = text "a/b"; content = text "x" } ∷ [];
  stdin = text "in";
  timeout = pos 0;
  memory_bytes = pos 0;
}

-- Everything works.
abbrev pub daemon : Daemon
daemon = record {
  creates = true;
  orphans = false;
  request_lives = true;
  attaches = true;
  starts = true;
  copies_stdin = true;
  closes_stdin = true;
  wait_end = exited (pos 3);
  oom_killed = some false;
  gives_logs = true;
  frames = some (to_stdout (text "out") ∷ to_stderr (text "err") ∷ []);
  elapsed = pos 5;
}

abbrev pub works : Works
works = λ done op. true

abbrev pub temp : AbsPath
temp = text "runboxd-1" ∷ text "tmp" ∷ []

file_name_local : is_local (text "m.c") ≡ true
unfolding is_local stays_inside clean rel_walk rel_step classify split text_eq
file_name_local = refl

setup_workspace-Contained_example :
    All
      (IsContained temp)
      (ops_of (setup_workspace works temp (text "1") (text "m.c") run_spec.workspace_files))
setup_workspace-Contained_example =
    setup_workspace-Contained temp works (text "1") (text "m.c") run_spec.workspace_files
      file_name_local

-- The call that creates the container ends with an error after the daemon has created it.
abbrev orphaning : Daemon
orphaning = record daemon { creates = false; orphans = true }

left_behind : container_after true false (run works temp orphaning specs run_spec).calls ≡ true
unfolding run run_found run_in lookup_spec with_entry with_spec lookup text_eq setup_workspace
    fill_workspace fill_input write_files on_error is_local stays_inside clean rel_walk rel_step
    classify split in_workspace first deferred failed container_after
left_behind = refl

run-container_example :
    (orphaning.creates ≡ false)
    × (orphaning.orphans ≡ true)
    × All (Meets IsManaged (λ t. Unit)) (run works temp orphaning specs run_spec).calls
run-container_example = run-container works temp orphaning specs run_spec left_behind

run-workspace_example :
    workspace_after works temp false (run works temp daemon specs run_spec).calls ≡ false
run-workspace_example = run-workspace works temp daemon specs run_spec

run_without_error : (run works temp daemon specs run_spec).error ≡ none
unfolding run run_found run_in lookup_spec with_entry with_spec lookup text_eq setup_workspace
    fill_workspace fill_input write_files on_error is_local stays_inside clean rel_walk rel_step
    classify split in_workspace in_container start_and_wait await select collect report first
    deferred failed returned
run_without_error = refl

run-Reports_example : Reports daemon (run works temp daemon specs run_spec).result
run-Reports_example = run-Reports works temp daemon specs run_spec run_without_error

entry_found : lookup (text "c") specs ≡ some entry
unfolding lookup text_eq
entry_found = refl

run-Keeps_example : All (Keeps entry) (run works temp daemon specs run_spec).calls
run-Keeps_example = run-Keeps works temp daemon specs run_spec entry entry_found limits_valid

abbrev pub language : Language
language = record {
  name = text "c";
  kind = text "compiled";
  filename = text "m.c";
  default_version = text "13";
  env = [];
  limits = spec 0 5 0 32 0 0 0 one_cpu;
  compile_limits = record {
    memory_mib = pos 0;
    timeout_seconds = pos 0;
    max_pids = pos 0;
    max_cpus = one_cpu;
    workspace_size_mib = pos 0;
    tmp_size_mib = pos 0;
  };
  versions =
      (
        text "13",
        record {
          name = text "13";
          image = text "c:13";
          run_cmd = text "a" ∷ [];
          build_cmd = text "b" ∷ [];
        },
      )
      ∷ [];
}

abbrev pub table : Map LangEntry
table =
    (
      text "c",
      record entry {
        limits = resolve_lang_limits (spec 0 5 0 32 0 0 0 one_cpu);
        compile_limits = no_compile_limits;
      },
    )
    ∷ []

abbrev invocation : CmdEnd → Invocation
invocation e = record {
  config_written = true;
  cmd_end = e;
  log = some (text "[I] Mode: STANDALONE_ONCE");
  deadline_exceeded = false;
  out = pieces;
  errs = [];
  duration = pos 5;
}

finish_ok_iff_example : (status_of (finish (invocation not_run)) ≡ some Status.ok) ↔ (
    (timed_out_of (invocation not_run) ≡ false)
    × ((not_run ≡ N.clean) ⊎ (not_run ≡ exit_error (pos 0)) ⊎ (not_run ≡ not_run)))
finish_ok_iff_example = finish_ok_iff (invocation not_run)

abbrev jail : Jail
jail = record { build_dir_made = true; build = invocation N.clean; run = invocation N.clean }

abbrev version_spec : VersionSpec
version_spec = record { image = text "c:13"; run_cmd = text "a" ∷ []; build_cmd = text "b" ∷ [] }

wants_build : needs_build entry version_spec ≡ true
unfolding needs_build text_eq
wants_build = refl

program_run : runs (stages jail run_spec entry version_spec).calls ≡ true
unfolding stages build_stage built run_stage needs_build text_eq N.first timed_out_of
    nsjail_hit_time_limit contains
program_run = refl

stages-runs_example :
    (timed_out_of (invocation N.clean) ≡ false)
    × ((N.clean ≡ N.clean) ⊎ (N.clean ≡ exit_error (pos 0)))
stages-runs_example = stages-runs jail run_spec entry version_spec wants_build program_run
