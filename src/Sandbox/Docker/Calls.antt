-- ===== src/Sandbox/Docker/Calls.antt =====
-- internal/sandbox/docker.go: what holds of every call that `Run` makes, from what holds of the
-- container that it creates and of the time that it waits.
use runboxd.Base.{
  Bool, true, false, Option, none, some, List, [], ◌∷◌, ◌≡◌, refl, All, All-append, if◌then◌else◌,
}
use runboxd.Base.Int.{ℤ}
use runboxd.Base.Text.{Text}
use runboxd.Base.Map.{Map}
use runboxd.Base.Result.{ok, err}
use runboxd.Sandbox.Types.{RunSpec, RunResult}
use runboxd.Sandbox.Interface.{Lookup, found, refused}
use runboxd.Sandbox.Clamp.{effective_timeout}
use runboxd.Sandbox.Entries.{LangEntry, VersionSpec, lookup_spec}
use runboxd.Sandbox.Workspace.{Works, AbsPath, Disk, remove_all}
use runboxd.Sandbox.Docker.{
  Daemon, Frame, WaitEnd, Call, disk, create, remove, attach, close_attach, start, copy_stdin,
  close_stdin, inspect, logs, wait, Ended, report, collect, select, await, start_and_wait,
  in_container, in_workspace, run_in, run_found, run, first, deferred, failed, returned, wait_error,
  exited,
}
use runboxd.Sandbox.Docker.Host.{HostConfig, get_host_config}
use runboxd.Sandbox.Docker.Container.{ContainerConfig, container_config}

abbrev pub Made : Type 1
Made = Text → ContainerConfig → HostConfig → Type 0

-- A container that is created is made as demanded, and a wait is as long as demanded.
abbrev pub Meets : Made → (ℤ → Type 0) → Call → Type 0
Meets made waits (create image config host) = made image config host
Meets made waits (wait t) = waits t
Meets made waits c = Unit

record AllMeet (made : Made) (waits : ℤ → Type 0) (e : Ended) : Type 0 where
  met : All (Meets made waits) e.calls

module _ {made : Made} {waits : ℤ → Type 0} where
  if-AllMeet :
      (b : Bool) (x y : Ended)
      → AllMeet made waits x
      → AllMeet made waits y
      → AllMeet made waits (if b then x else y)
  if-AllMeet b x y hx hy = elim b as (λ c. AllMeet made waits (if c then x else y)) [
    | true ↦ hx
    | false ↦ hy
  ]

  first-AllMeet :
      (c : Call) (e : Ended)
      → Meets made waits c
      → AllMeet made waits e
      → AllMeet made waits (first c e)
  unfolding first
  first-AllMeet c e hc he = record { met = (hc, he.met) }

  deferred-AllMeet :
      (c : Call) (e : Ended)
      → Meets made waits c
      → AllMeet made waits e
      → AllMeet made waits (deferred c e)
  unfolding deferred
  deferred-AllMeet c e hc he = record {
    met = All-append (Meets made waits) e.calls (c ∷ []) he.met (hc, tt);
  }

  failed-AllMeet : (cause : Text) → AllMeet made waits (failed cause)
  unfolding failed
  failed-AllMeet cause = record { met = tt }

  returned-AllMeet : (r : RunResult) → AllMeet made waits (returned r)
  unfolding returned
  returned-AllMeet r = record { met = tt }

  report-AllMeet :
      (d : Daemon) (code : ℤ) (o : Option (List Frame)) → AllMeet made waits (report d code o)
  unfolding report
  report-AllMeet d code none = (failed-AllMeet _)
  report-AllMeet d code (some fs) = (returned-AllMeet _)

  collect-AllMeet : (d : Daemon) (code : ℤ) → AllMeet made waits (collect d code)
  unfolding collect
  collect-AllMeet d code =
      first-AllMeet logs _ tt (if-AllMeet _ _ _ (report-AllMeet d code d.frames) (failed-AllMeet _))

  select-AllMeet : (d : Daemon) (w : WaitEnd) → AllMeet made waits (select d w)
  unfolding select
  select-AllMeet d (wait_error deadline ended) =
      if-AllMeet _ _ _ (returned-AllMeet _) (failed-AllMeet _)
  select-AllMeet d (exited code) =
      first-AllMeet inspect _ tt (if-AllMeet _ _ _ (returned-AllMeet _) (collect-AllMeet d code))

  start-AllMeet :
      (d : Daemon) (stdin : Text) (limit : ℤ)
      → Meets made waits (wait limit)
      → AllMeet made waits (start_and_wait d stdin limit)
  unfolding start_and_wait await
  start-AllMeet d stdin limit h =
      let waited : AllMeet made waits (first (wait limit) (select d d.wait_end)) =
        first-AllMeet (wait limit) _ h (select-AllMeet d d.wait_end) in
      let closed =
        first-AllMeet close_stdin _ tt (if-AllMeet d.closes_stdin _ _ waited (failed-AllMeet _)) in
      let copied =
        first-AllMeet copy_stdin _ tt (if-AllMeet d.copies_stdin _ _ closed (failed-AllMeet _)) in
      first-AllMeet start _ tt
        (if-AllMeet _ _ _ (if-AllMeet _ _ _ waited copied) (failed-AllMeet _))

  in_container-AllMeet :
      (d : Daemon) (stdin : Text) (limit : ℤ)
      → Meets made waits (wait limit)
      → AllMeet made waits (in_container d stdin limit)
  unfolding in_container
  in_container-AllMeet d stdin limit h =
      let started = start-AllMeet d stdin limit h in
      let attached = deferred-AllMeet close_attach _ tt started in
      if-AllMeet _ _ _
        (if-AllMeet _ _ _ started
          (first-AllMeet attach _ tt (if-AllMeet _ _ _ attached (failed-AllMeet _))))
        (failed-AllMeet _)

  run_in-AllMeet :
      (temp : AbsPath) (d : Daemon) (spec : RunSpec) (entry : LangEntry) (vs : VersionSpec)
      (w : Disk)
      → made vs.image (container_config entry.env spec.stdin) (get_host_config spec entry temp)
      → waits (effective_timeout spec.timeout entry.limits)
      → AllMeet made waits (run_in temp d spec entry vs w)
  unfolding run_in in_workspace
  run_in-AllMeet temp d spec entry vs (err (e, ops)) is_made waited =
      first-AllMeet (disk ops) _ tt (failed-AllMeet _)
  run_in-AllMeet temp d spec entry vs (ok ops) is_made waited =
      let inner =
        in_container-AllMeet d spec.stdin (effective_timeout spec.timeout entry.limits) waited in
      first-AllMeet (disk ops) _ tt (
        deferred-AllMeet (disk (remove_all temp ∷ [])) _ tt (
          first-AllMeet (create _ _ _) _ is_made
            (if-AllMeet _ _ _ (deferred-AllMeet remove _ tt inner) (failed-AllMeet _))))

  run_found-AllMeet :
      (works : Works) (temp : AbsPath) (d : Daemon) (spec : RunSpec)
      (l : Lookup (LangEntry × Text × VersionSpec))
      → ((entry : LangEntry) (v : Text) (vs : VersionSpec)
          → l ≡ found (entry, v, vs)
          → made vs.image (container_config entry.env spec.stdin) (get_host_config spec entry temp)
            × waits (effective_timeout spec.timeout entry.limits))
      → AllMeet made waits (run_found works temp d spec l)
  unfolding run_found
  run_found-AllMeet works temp d spec (refused e) h = record { met = tt }
  run_found-AllMeet works temp d spec (found (entry, v, vs)) h =
      let (is_made, waited) = h entry v vs refl in
      run_in-AllMeet temp d spec entry vs _ is_made waited

-- The calls of a run meet what its container and its wait do, for the language and the version that
-- are looked up.
pub run-Meets :
    (made : Made) (waits : ℤ → Type 0) (works : Works) (temp : AbsPath) (d : Daemon)
    (specs : Map LangEntry) (spec : RunSpec)
    → ((entry : LangEntry) (v : Text) (vs : VersionSpec)
        → lookup_spec specs spec.language spec.version ≡ found (entry, v, vs)
        → made vs.image (container_config entry.env spec.stdin) (get_host_config spec entry temp)
          × waits (effective_timeout spec.timeout entry.limits))
    → All (Meets made waits) (run works temp d specs spec).calls
unfolding run
run-Meets made waits works temp d specs spec h =
    (run_found-AllMeet {made = made} {waits = waits} works temp d spec _ h).met
