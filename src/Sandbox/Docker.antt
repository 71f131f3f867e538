-- ===== src/Sandbox/Docker.antt =====
-- internal/sandbox/docker.go: `Run` of the Docker backend, as the calls that it makes and what it
-- returns. The daemon is code of another program: `Daemon` holds its answers in one run.
pub mod Host
pub mod Container
pub mod Calls
pub mod Reaper
pub mod Cleanup
pub mod Outcome
pub mod Confined
use runboxd.Base.{
  ℕ, Bool, true, false, not, ◌&&◌, ◌||◌, Option, none, some, List, [], ◌∷◌, ◌++◌, if◌then◌else◌,
}
use runboxd.Base.Int.{ℤ, pos, negsuc, eqb_ℤ}
use runboxd.Base.Text.{Text, text, is_empty}
use runboxd.Base.Map.{Map}
use runboxd.Base.Result.{Result, ok, err}
use runboxd.Sandbox.Types.{
  RunSpec, RunResult, Status, timeout, oom, internal_error, runtime_error, compile_error,
}
use runboxd.Sandbox.Interface.{Lookup, found, refused, SandboxError, fault}
use runboxd.Sandbox.Limits.{max_output_bytes}
use runboxd.Sandbox.Clamp.{effective_timeout}
use runboxd.Sandbox.LimitWriter.{LimitWriter, new_writer, write}
use runboxd.Sandbox.Entries.{LangEntry, VersionSpec, lookup_spec}
use runboxd.Sandbox.Workspace.{Works, AbsPath, Disk, DiskOp, remove_all, setup_workspace}
use Host.{HostConfig, get_host_config}
use Container.{ContainerConfig, container_config}

unfoldable pub status_for_exit : ℤ → Status
status_for_exit code =
    if eqb_ℤ code (pos 0)
    then Status.ok
    else if eqb_ℤ code (pos 100)
    then compile_error
    else runtime_error

-- A frame of the container's log. The log is capped (`LogConfig`): where a program writes more, the daemon
-- has dropped the first frames.
pub data Frame : Type 0 where
  to_stdout to_stderr : Text → Frame

-- `ContainerWait`: an error, with whether the deadline of the run has passed and whether the
-- request itself has ended, or the exit code.
pub data WaitEnd : Type 0 where
  wait_error : (deadline_exceeded request_ended : Bool) → WaitEnd
  exited : ℤ → WaitEnd

pub record Daemon : Type 0 where
  -- How the call of `ContainerCreate` ends, and whether the daemon has created a container although it
  -- ends with an error.
  pub creates : Bool
  pub orphans : Bool
  -- `ctx.Err() == nil` after the container is created
  pub request_lives : Bool
  pub attaches : Bool
  pub starts : Bool
  pub copies_stdin : Bool
  pub closes_stdin : Bool
  pub wait_end : WaitEnd
  -- `OOMKilled` of the inspected state, `none` if the call fails or there is no state
  pub oom_killed : Option Bool
  pub gives_logs : Bool
  -- the frames of the log, `none` if `StdCopy` fails
  pub frames : Option (List Frame)
  pub elapsed : ℤ

pub data Call : Type 0 where
  disk : List DiskOp → Call
  create : (image : Text) → ContainerConfig → HostConfig → Call
  remove attach close_attach start copy_stdin close_stdin inspect logs : Call
  wait : (timeout : ℤ) → Call

-- What `Run` returns, and the calls that it made, the first one first. The result `none` is the zero
-- value `RunResult{}`, the error `none` is nil.
pub record Ended : Type 0 where
  pub result : Option RunResult
  pub error : Option SandboxError
  pub calls : List Call

abbrev pub status_only : Status → ℤ → ℤ → RunResult
status_only status code duration = record {
  stdout = [];
  stderr = [];
  exit_code = code;
  status = status;
  duration = duration;
}

-- `return runResInternalErr, ...`
unfoldable pub failed : Text → Ended
failed cause = record {
  result = some (status_only internal_error (pos 0) (pos 0));
  error = some (fault cause);
  calls = [];
}

unfoldable pub returned : RunResult → Ended
returned r = record { result = some r; error = none; calls = [] }

-- A call before the rest, and a deferred call after it.
unfoldable pub first : Call → Ended → Ended
first c e = record { result = e.result; error = e.error; calls = c ∷ e.calls }

unfoldable pub deferred : Call → Ended → Ended
deferred c e = record { result = e.result; error = e.error; calls = e.calls ++ (c ∷ []) }

-- `stdcopy.StdCopy` into the two capped buffers.
unfoldable pub demux : List Frame → LimitWriter → LimitWriter → LimitWriter × LimitWriter
demux [] out_w err_w = (out_w, err_w)
demux (to_stdout p ∷ fs) out_w err_w = demux fs (write out_w p).0 err_w
demux (to_stderr p ∷ fs) out_w err_w = demux fs out_w (write err_w p).0

-- From the call of `StdCopy` to the end.
unfoldable pub report : Daemon → ℤ → Option (List Frame) → Ended
unfolding failed returned
report d code none = failed (text "failed to demux container output")
report d code (some fs) =
    let ws = demux fs (new_writer max_output_bytes) (new_writer max_output_bytes) in
    returned (record {
      stdout = ws.0.buf;
      stderr = ws.1.buf;
      exit_code = code;
      status = status_for_exit code;
      duration = d.elapsed;
    })

-- From the call of `ContainerLogs` to the end.
unfoldable pub collect : Daemon → ℤ → Ended
unfolding failed
collect d code =
    let reported = report d code d.frames in
    first logs (if d.gives_logs then reported else failed (text "failed to get container logs"))

abbrev pub is_true : Option Bool → Bool
is_true (some b) = b
is_true none = false

-- The cases of the `select` on the end of the container.
unfoldable pub select : Daemon → WaitEnd → Ended
unfolding failed returned
select d (wait_error deadline_exceeded request_ended) =
    if deadline_exceeded && not request_ended
    then returned (status_only timeout (negsuc 0) d.elapsed)
    else failed (text "failed waiting for container")
select d (exited code) =
    let collected = collect d code in
    first inspect (
      if is_true d.oom_killed || eqb_ℤ code (pos 137)
      then returned (status_only oom (negsuc 0) d.elapsed)
      else collected)

unfoldable pub await : Daemon → Ended
await d = select d d.wait_end

-- From `ContainerStart` on, for a run that may last `limit`.
unfoldable pub start_and_wait : Daemon → Text → ℤ → Ended
unfolding failed
start_and_wait d stdin limit =
    let waited = first (wait limit) (await d) in
    first start (
      if d.starts
      then if is_empty stdin
        then waited
        else first copy_stdin (
            if d.copies_stdin
            then first close_stdin
                (if d.closes_stdin then waited else failed (text "failed to close stdin"))
            else failed (text "failed to write stdin"))
      else failed (text "failed to start container"))

-- Between the creation of the container and its removal.
unfoldable pub in_container : Daemon → Text → ℤ → Ended
unfolding failed
in_container d stdin limit =
    let started = start_and_wait d stdin limit in
    if d.request_lives
    then if is_empty stdin
      then started
      else first attach (
          if d.attaches
          then deferred close_attach started
          else failed (text "failed to attach stdin"))
    else failed (text "request context error before start")

-- Between the making of the workspace and its removal. Where the call that creates the container ends with
-- an error no removal is registered, also if the daemon has created one (`orphans`).
unfoldable pub in_workspace :
    Daemon → (image : Text) → ContainerConfig → (stdin : Text) → ℤ → HostConfig → Ended
unfolding failed
in_workspace d image config stdin limit host = first (create image config host) (
    if d.creates
    then deferred remove (in_container d stdin limit)
    else failed (text "failed to create container"))

-- From the end of `setupWorkspace` on, for the language and the version that were found.
unfoldable pub run_in : AbsPath → Daemon → RunSpec → LangEntry → VersionSpec → Disk → Ended
unfolding failed
run_in temp d spec entry vs (err (e, ops)) =
    first (disk ops) (failed (text "failed to setup workspace"))
run_in temp d spec entry vs (ok ops) = first (disk ops) (
    deferred (disk (remove_all temp ∷ [])) (
      in_workspace d vs.image (container_config entry.env spec.stdin) spec.stdin
        (effective_timeout spec.timeout entry.limits) (get_host_config spec entry temp)))

-- From the end of `lookupSpec` on.
unfoldable pub run_found :
    Works → AbsPath → Daemon → RunSpec → Lookup (LangEntry × Text × VersionSpec) → Ended
run_found works temp d spec (refused e) = record { result = none; error = some e; calls = [] }
run_found works temp d spec (found (entry, v, vs)) =
    run_in temp d spec entry vs
      (setup_workspace works temp spec.code entry.filename spec.workspace_files)

unfoldable pub run : Works → AbsPath → Daemon → Map LangEntry → RunSpec → Ended
run works temp d specs spec =
    run_found works temp d spec (lookup_spec specs spec.language spec.version)
