-- ===== src/Sandbox/Docker/Outcome.antt =====
-- internal/sandbox/docker.go: what a run without an error reports.
use runboxd.Base.{
  Bool, true, false, ◌||◌, Option, none, some, List, [], ◌∷◌, ◌≡◌, refl, sym, ◌∙◌, arith, inl, inr,
  Bool-cases, take, ap, subst, if_both, ◌≢◌,
}
use mathlib.Core.Bool.{false≢true}
use runboxd.Base.Int.{ℤ, pos, negsuc, eqb_ℤ, eqb_ℤ_iff}
use runboxd.Base.Text.{Text}
use runboxd.Base.Map.{Map}
use runboxd.Base.Result.{ok, err}
use runboxd.Sandbox.Types.{RunSpec, RunResult, Status, compile_error, runtime_error, timeout, oom}
use runboxd.Sandbox.Interface.{Lookup, found, refused}
use runboxd.Sandbox.Limits.{max_output_bytes}
use runboxd.Sandbox.LimitWriter.{
  LimitWriter, new_writer, write, write_all, concat, write_all-new_writer,
}
use runboxd.Sandbox.Entries.{LangEntry, VersionSpec}
use runboxd.Sandbox.Workspace.{Works, AbsPath, Disk, setup_workspace}
use runboxd.Sandbox.Clamp.{effective_timeout}
use runboxd.Sandbox.Docker.{
  Daemon, Frame, to_stdout, to_stderr, wait_error, exited, demux, report, collect, select, WaitEnd,
  await, is_true, start_and_wait, in_container, in_workspace, run_in, run_found, run, first,
  deferred, failed, returned, status_only, status_for_exit,
}

-- What the log holds of the standard output of the container, and of its standard error.
abbrev pub stdout_of : List Frame → List Text
stdout_of [] = []
stdout_of (to_stdout p ∷ fs) = p ∷ stdout_of fs
stdout_of (to_stderr p ∷ fs) = stdout_of fs

abbrev pub stderr_of : List Frame → List Text
stderr_of [] = []
stderr_of (to_stdout p ∷ fs) = stderr_of fs
stderr_of (to_stderr p ∷ fs) = p ∷ stderr_of fs

demux-write_all :
    (fs : List Frame) (o e : LimitWriter)
    → demux fs o e ≡ (write_all o (stdout_of fs), write_all e (stderr_of fs))
unfolding demux write_all
demux-write_all [] o e = refl
demux-write_all (to_stdout p ∷ fs) o e = demux-write_all fs (write o p).0 e
demux-write_all (to_stderr p ∷ fs) o e = demux-write_all fs o (write e p).0

-- What an exit code means: 100 is the code by which the wrapper script reports that a build failed.
pub data ExitStatus : ℤ → Status → Type 0 where
  exit_ok : ExitStatus (pos 0) Status.ok
  exit_build : ExitStatus (pos 100) compile_error
  exit_other : {code : ℤ} → code ≢ pos 0 → code ≢ pos 100 → ExitStatus code runtime_error

-- The result of a run whose container exited by itself with `code`: the log is split into its two streams,
-- each cut after the limit.
pub record IsFullResult (d : Daemon) (code : ℤ) (fs : List Frame) (r : RunResult) : Type 0 where
  pub stdout : r.stdout ≡ take max_output_bytes (concat (stdout_of fs))
  pub stderr : r.stderr ≡ take max_output_bytes (concat (stderr_of fs))
  pub exit_code : r.exit_code ≡ code
  pub status : ExitStatus code r.status
  pub duration : r.duration ≡ d.elapsed

status_for_exit-ExitStatus : (code : ℤ) → ExitStatus code (status_for_exit code)
unfolding status_for_exit
status_for_exit-ExitStatus code =
    if_both (ExitStatus code) (eqb_ℤ code (pos 0)) Status.ok _
      (λ zero_here.
        subst (λ c. ExitStatus c Status.ok) (sym ((eqb_ℤ_iff code (pos 0)).0 zero_here)) exit_ok)
      (λ not_zero.
        if_both (ExitStatus code) (eqb_ℤ code (pos 100)) compile_error runtime_error
          (λ hundred.
            subst (λ c. ExitStatus c compile_error) (sym ((eqb_ℤ_iff code (pos 100)).0 hundred))
              exit_build)
          (λ other.
            exit_other (λ e. false≢true (sym not_zero ∙ (eqb_ℤ_iff code (pos 0)).1 e))
              (λ e. false≢true (sym other ∙ (eqb_ℤ_iff code (pos 100)).1 e))))

-- The container was killed for want of memory.
abbrev pub out_of_memory : Daemon → ℤ → Bool
out_of_memory d code = is_true d.oom_killed || eqb_ℤ code (pos 137)

pub data Reports (d : Daemon) (r : Option RunResult) : Type 0 where
  -- the wait ended by the deadline of the run, not by the end of the request
  timed_out :
      d.wait_end ≡ wait_error true false
      → r ≡ some (status_only timeout (negsuc 0) d.elapsed)
      → Reports d r
  killed :
      (code : ℤ)
      → d.wait_end ≡ exited code
      → out_of_memory d code ≡ true
      → r ≡ some (status_only oom (negsuc 0) d.elapsed)
      → Reports d r
  completed :
      (code : ℤ) (fs : List Frame) (full : RunResult)
      → d.wait_end ≡ exited code
      → out_of_memory d code ≡ false
      → d.frames ≡ some fs
      → r ≡ some full
      → IsFullResult d code fs full
      → Reports d r

demux-full :
    (fs : List Frame)
    → ((demux fs (new_writer max_output_bytes) (new_writer max_output_bytes)).0.buf
        ≡ take max_output_bytes (concat (stdout_of fs)))
      × ((demux fs (new_writer max_output_bytes) (new_writer max_output_bytes)).1.buf
          ≡ take max_output_bytes (concat (stderr_of fs)))
demux-full fs =
    let both = demux-write_all fs (new_writer max_output_bytes) (new_writer max_output_bytes) in
    (
      ap (λ ws. ws.0.buf) both ∙ write_all-new_writer max_output_bytes (stdout_of fs),
      ap (λ ws. ws.1.buf) both ∙ write_all-new_writer max_output_bytes (stderr_of fs),
    )

report-full :
    (d : Daemon) (code : ℤ) (o : Option (List Frame))
    → (report d code o).error ≡ none
    → (fs : List Frame) × (r : RunResult) × (o ≡ some fs)
      × ((report d code o).result ≡ some r)
      × IsFullResult d code fs r
unfolding report failed returned
report-full d code none h = cc
report-full d code (some fs) h =
    let (out, errs) = demux-full fs in
    (
      fs,
      _,
      refl,
      refl,
      record {
        stdout = out;
        stderr = errs;
        exit_code = refl;
        status = status_for_exit-ExitStatus code;
        duration = refl;
      },
    )

collect-report :
    (d : Daemon) (code : ℤ)
    → (collect d code).error ≡ none
    → ((report d code d.frames).error ≡ none)
      × ((collect d code).result ≡ (report d code d.frames).result)
unfolding collect first failed
collect-report d code h = ground arith

select-Reports :
    (d : Daemon) (w : WaitEnd)
    → d.wait_end ≡ w
    → (select d w).error ≡ none
    → Reports d (select d w).result
unfolding select first failed returned
select-Reports d (wait_error true false) q h = timed_out q refl
select-Reports d (wait_error true true) q h = cc
select-Reports d (wait_error false b) q h = cc
select-Reports d (exited code) q h = elim (Bool-cases (out_of_memory d code)) [
  | inl oomed ↦ killed code q oomed (ground arith)
  | inr alive ↦
      let (none_collected, same) = collect-report d code (ground arith) in
      let (fs, full, framed, reported, is_full) = report-full d code d.frames none_collected in
      completed code fs full q alive framed (ground (arith, reported)) is_full
]

-- The steps before the wait do not change what the wait leads to.
start-await :
    (d : Daemon) (stdin : Text) (limit : ℤ)
    → (start_and_wait d stdin limit).error ≡ none
    → ((start_and_wait d stdin limit).result ≡ (await d).result) × ((await d).error ≡ none)
unfolding start_and_wait first failed
start-await d stdin limit h = ground arith

container-await :
    (d : Daemon) (stdin : Text) (limit : ℤ)
    → (in_container d stdin limit).error ≡ none
    → ((in_container d stdin limit).result ≡ (await d).result) × ((await d).error ≡ none)
unfolding in_container first failed deferred
container-await d stdin limit h = ground (arith, start-await d stdin limit)

run_in-await :
    (temp : AbsPath) (d : Daemon) (spec : RunSpec) (entry : LangEntry) (vs : VersionSpec) (w : Disk)
    → (run_in temp d spec entry vs w).error ≡ none
    → ((run_in temp d spec entry vs w).result ≡ (await d).result) × ((await d).error ≡ none)
unfolding run_in in_workspace first failed deferred
run_in-await temp d spec entry vs (err (e, ops)) h = cc
run_in-await temp d spec entry vs (ok ops) h =
    let limit = effective_timeout spec.timeout entry.limits in
    ground (arith, container-await d spec.stdin limit)

run_found-await :
    (works : Works) (temp : AbsPath) (d : Daemon) (spec : RunSpec)
    (l : Lookup (LangEntry × Text × VersionSpec))
    → (run_found works temp d spec l).error ≡ none
    → ((run_found works temp d spec l).result ≡ (await d).result) × ((await d).error ≡ none)
unfolding run_found
run_found-await works temp d spec (refused e) h = cc
run_found-await works temp d spec (found (entry, v, vs)) h =
    run_in-await temp d spec entry vs
      (setup_workspace works temp spec.code entry.filename spec.workspace_files) h

-- A run that ends without an error reports what happened to its container: that the time ran out,
-- that it was killed for want of memory, or its exit code and what the code means (0, 100 or another),
-- with the first MiB of what its log, which the daemon caps, holds of each of its outputs.
pub run-Reports :
    (works : Works) (temp : AbsPath) (d : Daemon) (specs : Map LangEntry) (spec : RunSpec)
    → (run works temp d specs spec).error ≡ none
    → Reports d (run works temp d specs spec).result
unfolding run await
run-Reports works temp d specs spec h =
    let (same, none_awaited) = run_found-await works temp d spec _ h in
    subst (Reports d) (sym same) (select-Reports d d.wait_end refl none_awaited)
