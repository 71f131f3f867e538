-- ===== src/Sandbox/Nsjail.antt =====
-- internal/sandbox/nsjail.go: `Run` of the nsjail backend, a build for the languages that want one and
-- then the run, each an invocation of nsjail. nsjail is another program: `Jail` holds how it and the
-- disk answer in one run.
pub mod Stages
pub mod Config
pub mod Template
use runboxd.Base.{
  ℕ, Bool, true, false, not, ◌&&◌, ◌||◌, Option, none, some, List, [], ◌∷◌, ◌++◌, if◌then◌else◌,
}
use runboxd.Base.Int.{ℤ, pos, negsuc, eqb_ℤ}
use runboxd.Base.Text.{Text, text, text_eq, contains}
use runboxd.Base.Map.{Map}
use runboxd.Base.Result.{ok, err}
use runboxd.Sandbox.Types.{
  RunSpec, RunResult, Status, timeout, oom, runtime_error, compile_error, internal_error,
}
use runboxd.Sandbox.Interface.{Lookup, found, refused, SandboxError, fault}
use runboxd.Sandbox.Limits.{max_output_bytes}
use runboxd.Sandbox.Clamp.{effective_timeout, effective_memory_bytes}
use runboxd.Sandbox.LimitWriter.{new_writer, write_all}
use runboxd.Sandbox.Entries.{LangEntry, VersionSpec, lookup_spec}
use runboxd.Sandbox.Workspace.{Works, AbsPath, Disk, DiskOp, remove_all, setup_workspace}

unfoldable pub status_for_nsjail_exit : ℤ → Bool → Status
status_for_nsjail_exit code timed_out =
    if timed_out
    then timeout
    else if eqb_ℤ code (pos 0)
    then Status.ok
    else if eqb_ℤ code (pos 137)
    then oom
    else runtime_error

-- `cmd.Run()`: nil, an `ExitError` with its code, or another error, as of a command that cannot be
-- started.
pub data CmdEnd : Type 0 where
  clean : CmdEnd
  exit_error : ℤ → CmdEnd
  not_run : CmdEnd

-- One invocation: how it ends, its log, if it can be read, whether its deadline has passed, and what
-- it writes.
pub record Invocation : Type 0 where
  pub config_written : Bool
  pub cmd_end : CmdEnd
  pub log : Option Text
  pub deadline_exceeded : Bool
  pub out : List Text
  pub errs : List Text
  pub duration : ℤ

unfoldable pub nsjail_hit_time_limit : Option Text → Bool
nsjail_hit_time_limit none = false
nsjail_hit_time_limit (some log) = contains log (text "run time >= time limit")

unfoldable pub timed_out_of : Invocation → Bool
timed_out_of i = nsjail_hit_time_limit i.log || i.deadline_exceeded

pub record Jail : Type 0 where
  pub build_dir_made : Bool
  pub build : Invocation
  pub run : Invocation

pub data Call : Type 0 where
  disk : List DiskOp → Call
  make_build_dir : Call
  invoke_build invoke_run : (timeout memory : ℤ) → Call

pub record Ended : Type 0 where
  pub result : Option RunResult
  pub error : Option SandboxError
  pub calls : List Call

unfoldable pub failed : Text → Ended
failed cause = record {
  result = some (record {
    stdout = [];
    stderr = [];
    exit_code = pos 0;
    status = internal_error;
    duration = pos 0;
  });
  error = some (fault cause);
  calls = [];
}

unfoldable pub first : Call → Ended → Ended
first c e = record { result = e.result; error = e.error; calls = c ∷ e.calls }

-- A result with the capped output of an invocation.
unfoldable pub returned : Invocation → ℤ → Status → ℤ → Ended
returned i code status duration = record {
  result = some (record {
    stdout = (write_all (new_writer max_output_bytes) i.out).buf;
    stderr = (write_all (new_writer max_output_bytes) i.errs).buf;
    exit_code = code;
    status = status;
    duration = duration;
  });
  error = none;
  calls = [];
}

-- `exitCode` after the run: an error that is no `ExitError` leaves it zero.
unfoldable pub exit_code_of : CmdEnd → ℤ
exit_code_of clean = pos 0
exit_code_of (exit_error code) = code
exit_code_of not_run = pos 0

-- From the invocation of the run to the end.
unfoldable pub finish : Invocation → Ended
finish i =
    let code : ℤ = if timed_out_of i then negsuc 0 else exit_code_of i.cmd_end in
    let status : Status = status_for_nsjail_exit code (timed_out_of i) in
    let shown : ℤ = elim status [ oom ↦ negsuc 0 | _ ↦ code ] in returned i shown status i.duration

unfoldable pub run_stage : Jail → RunSpec → LangEntry → Ended
run_stage j spec entry =
    if j.run.config_written
    then first
        (invoke_run (effective_timeout spec.timeout entry.limits)
          (effective_memory_bytes spec.memory_bytes entry.limits))
        (finish j.run)
    else failed (text "failed to write nsjail run config")

-- What follows the build, `rest` where it succeeds.
unfoldable pub built : Invocation → CmdEnd → Ended → Ended
built i not_run rest = failed (text "nsjail build invocation failed")
built i clean rest = if timed_out_of i then returned i (negsuc 0) timeout (pos 0) else rest
built i (exit_error code) rest =
    if timed_out_of i
    then returned i (negsuc 0) timeout (pos 0)
    else if eqb_ℤ code (pos 0)
    then rest
    else returned i code compile_error (pos 0)

unfoldable pub build_stage : Jail → LangEntry → Ended → Ended
build_stage j entry rest = first make_build_dir (
    if j.build_dir_made
    then if j.build.config_written
      then first (invoke_build entry.compile_limits.timeout entry.compile_limits.memory_bytes)
          (built j.build j.build.cmd_end rest)
      else failed (text "failed to write nsjail build config")
    else failed (text "failed to create build dir"))

abbrev has_items : List Text → Bool
has_items [] = false
has_items (x ∷ xs) = true

unfoldable pub needs_build : LangEntry → VersionSpec → Bool
needs_build entry vs = text_eq entry.lang_type (text "compiled") && has_items vs.build_cmd

unfoldable pub stages : Jail → RunSpec → LangEntry → VersionSpec → Ended
stages j spec entry vs =
    if needs_build entry vs
    then build_stage j entry (run_stage j spec entry)
    else run_stage j spec entry

unfoldable pub run_in : AbsPath → Jail → RunSpec → LangEntry → VersionSpec → Disk → Ended
run_in temp j spec entry vs (err (e, ops)) =
    first (disk ops) (failed (text "failed to setup workspace"))
run_in temp j spec entry vs (ok ops) =
    let e = stages j spec entry vs in
    first (disk ops) (record {
      result = e.result;
      error = e.error;
      calls = e.calls ++ (disk (remove_all temp ∷ []) ∷ []);
    })

unfoldable pub run_found :
    Works → AbsPath → Jail → RunSpec → Lookup (LangEntry × Text × VersionSpec) → Ended
run_found works temp j spec (refused e) = record { result = none; error = some e; calls = [] }
run_found works temp j spec (found (entry, v, vs)) =
    run_in temp j spec entry vs
      (setup_workspace works temp spec.code entry.filename spec.workspace_files)

unfoldable pub run : Works → AbsPath → Jail → Map LangEntry → RunSpec → Ended
run works temp j specs spec =
    run_found works temp j spec (lookup_spec specs spec.language spec.version)
