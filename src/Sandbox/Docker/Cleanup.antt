-- ===== src/Sandbox/Docker/Cleanup.antt =====
-- internal/sandbox/docker.go: the deferred calls of `Run` and of `setupWorkspace`, as what is left of
-- a run when its calls are played back: its container and its directory.
use runboxd.Base.{
  Bool, true, false, not, ◌||◌, ◌&&◌, some, List, [], ◌∷◌, ◌++◌, ◌≡◌, refl, sym, ◌∙◌, Bool-cases,
  inl, inr, if◌then◌else◌, All, arith,
}
use runboxd.Base.Text.{Text, text, text_eq, text_eq_refl}
use runboxd.Base.Map.{Map, lookup}
use runboxd.Base.Result.{ok, err}
use runboxd.Sandbox.Types.{RunSpec, WorkspaceFile}
use runboxd.Sandbox.Interface.{Lookup, found, refused}
use runboxd.Sandbox.Docker.Calls.{Made, Meets, run-Meets}
use runboxd.Sandbox.Docker.Container.{container_config, managed_label}
use runboxd.Sandbox.Entries.{LangEntry, VersionSpec, lookup_spec}
use runboxd.Sandbox.Clamp.{effective_timeout}
use runboxd.Sandbox.Docker.{
  Daemon, Call, disk, run_in, run_found, create, remove, Ended, first, deferred, run, failed,
  in_workspace, in_container,
}
use runboxd.Sandbox.Workspace.{
  Works, AbsPath, Disk, DiskOp, mkdir_temp, remove_all, setup_workspace, on_error, fill_workspace,
}

-- Whether a container of the run exists after the calls, where `made` tells whether the daemon has created
-- one when it was asked to, however it answered.
unfoldable pub container_after : (made : Bool) → Bool → List Call → Bool
container_after made s [] = s
container_after made s (create image config host ∷ cs) = container_after made made cs
container_after made s (remove ∷ cs) = container_after made false cs
container_after made s (c ∷ cs) = container_after made s cs

abbrev pub same_path : AbsPath → AbsPath → Bool
same_path [] [] = true
same_path (a ∷ p) (b ∷ q) = text_eq a b && same_path p q
same_path [] (b ∷ q) = false
same_path (a ∷ p) [] = false

same_path_refl : (p : AbsPath) → same_path p p ≡ true
same_path_refl [] = refl
same_path_refl (a ∷ p) = ground (arith, text_eq_refl a, same_path_refl p)

-- Whether the directory `temp` of the run exists after the operations, the last one first: only the removal
-- of this very path ends it.
dir_after : Works → AbsPath → Bool → List DiskOp → Bool
dir_after works temp s [] = s
dir_after works temp s (mkdir_temp ∷ done) = works done mkdir_temp
dir_after works temp s (remove_all p ∷ done) =
    if same_path p temp then false else dir_after works temp s done
dir_after works temp s (op ∷ done) = dir_after works temp s done

pub workspace_after : Works → (temp : AbsPath) → Bool → List Call → Bool
unfolding dir_after
workspace_after works temp s [] = s
workspace_after works temp s (disk ops ∷ cs) =
    workspace_after works temp (dir_after works temp s ops) cs
workspace_after works temp s (c ∷ cs) = workspace_after works temp s cs

container_after-append :
    (made s : Bool) (xs ys : List Call)
    → container_after made s (xs ++ ys) ≡ container_after made (container_after made s xs) ys
unfolding container_after
container_after-append made s [] ys = refl
container_after-append made s (create image config host ∷ xs) ys =
    container_after-append made made xs ys
container_after-append made s (remove ∷ xs) ys = container_after-append made false xs ys
container_after-append made s (c ∷ xs) ys = container_after-append made s xs ys

workspace_after-append :
    (works : Works) (temp : AbsPath) (s : Bool) (xs ys : List Call)
    → workspace_after works temp s (xs ++ ys)
      ≡ workspace_after works temp (workspace_after works temp s xs) ys
unfolding workspace_after
workspace_after-append works temp s [] ys = refl
workspace_after-append works temp s (disk ops ∷ xs) ys =
    workspace_after-append works temp (dir_after works temp s ops) xs ys
workspace_after-append works temp s (c ∷ xs) ys = workspace_after-append works temp s xs ys

-- The two deferred calls, whatever stands before them.
container-deferred :
    (made s : Bool) (e : Ended) → container_after made s (deferred remove e).calls ≡ false
unfolding container_after deferred
container-deferred made s e = container_after-append made s e.calls (remove ∷ [])

workspace-deferred :
    (works : Works) (temp : AbsPath) (s : Bool) (e : Ended)
    → workspace_after works temp s (deferred (disk (remove_all temp ∷ [])) e).calls ≡ false
unfolding workspace_after dir_after deferred
workspace-deferred works temp s e =
    workspace_after-append works temp s e.calls (disk (remove_all temp ∷ []) ∷ [])
    ∙ rw (same_path_refl temp) refl

container-either :
    (creates orphans : Bool) (e : Ended) (cause : Text)
    → container_after
        (creates || orphans)
        (creates || orphans)
        (if creates then deferred remove e else failed cause).calls
      ≡ (not creates && orphans)
unfolding container_after failed
container-either true orphans e cause = container-deferred true true e
container-either false orphans e cause = refl

-- The container that is left: one that was created by a call which ended with an error.
abbrev is_lost : Daemon → Bool
is_lost d = not d.creates && d.orphans

container-run_in :
    (temp : AbsPath) (d : Daemon) (spec : RunSpec) (entry : LangEntry) (vs : VersionSpec) (w : Disk)
    → container_after (d.creates || d.orphans) false (run_in temp d spec entry vs w).calls ≡ true
    → is_lost d ≡ true
unfolding container_after run_in first failed deferred in_workspace
container-run_in temp d spec entry vs (err (e, ops)) h = absurd (cc)
container-run_in temp d spec entry vs (ok ops) h =
    let made = d.creates || d.orphans in
    let inner = in_container d spec.stdin (effective_timeout spec.timeout entry.limits) in
    sym (container-either d.creates d.orphans inner (text "failed to create container"))
    ∙ sym (
        container_after-append made made
          (if d.creates
            then deferred remove inner
            else failed (text "failed to create container")).calls
          (disk (remove_all temp ∷ []) ∷ []))
    ∙ h

container-run_found :
    (works : Works) (temp : AbsPath) (d : Daemon) (spec : RunSpec)
    (l : Lookup (LangEntry × Text × VersionSpec))
    → container_after (d.creates || d.orphans) false (run_found works temp d spec l).calls ≡ true
    → is_lost d ≡ true
unfolding run_found container_after
container-run_found works temp d spec (refused e) h = absurd (cc)
container-run_found works temp d spec (found (entry, v, vs)) h =
    container-run_in temp d spec entry vs _ h

-- A container with the label that the reaper looks for.
abbrev pub IsManaged : Made
IsManaged image config host = lookup managed_label config.labels ≡ some (text "1")

pub container_config-IsManaged :
    (env : Map Text) (stdin : Text)
    → lookup managed_label (container_config env stdin).labels ≡ some (text "1")
unfolding container_config lookup text_eq
container_config-IsManaged env stdin = refl

-- What was done to the disk where `setupWorkspace` fails.
error_ops : Disk → List DiskOp
error_ops (ok ops) = []
error_ops (err (e, ops)) = ops

dir-on_error :
    (works : Works) (temp : AbsPath) (w : Disk)
    → dir_after works temp false (error_ops (on_error temp w)) ≡ false
unfolding dir_after on_error error_ops
dir-on_error works temp (ok done) = refl
dir-on_error works temp (err (e, done)) = rw (same_path_refl temp) refl

dir-setup_workspace :
    (works : Works) (temp : AbsPath) (code filename : Text) (files : List WorkspaceFile)
    → dir_after works temp false (error_ops (setup_workspace works temp code filename files))
      ≡ false
unfolding dir_after setup_workspace error_ops
dir-setup_workspace works temp code filename files = elim (Bool-cases (works [] mkdir_temp)) [
  | inl made ↦ rw made (dir-on_error works temp (fill_workspace works temp code filename files))
  | inr unmade ↦ rw unmade unmade
]

workspace-run_in :
    (works : Works) (temp : AbsPath) (d : Daemon) (spec : RunSpec) (entry : LangEntry)
    (vs : VersionSpec) (w : Disk)
    → dir_after works temp false (error_ops w) ≡ false
    → workspace_after works temp false (run_in temp d spec entry vs w).calls ≡ false
unfolding workspace_after dir_after run_in first failed error_ops
workspace-run_in works temp d spec entry vs (err (e, ops)) h = h
workspace-run_in works temp d spec entry vs (ok ops) h =
    workspace-deferred works temp (dir_after works temp false ops) _

-- Whatever happens in a run, a container is left when its calls are played back, the removal of it taken to
-- work, only where the call that creates it ended with an error although the daemon had created one; and
-- every container that a run has created is made with the label by which the reaper finds it.
pub run-container :
    (works : Works) (temp : AbsPath) (d : Daemon) (specs : Map LangEntry) (spec : RunSpec)
    → container_after (d.creates || d.orphans) false (run works temp d specs spec).calls ≡ true
    → (d.creates ≡ false)
      × (d.orphans ≡ true)
      × All (Meets IsManaged (λ t. Unit)) (run works temp d specs spec).calls
unfolding run
run-container works temp d specs spec left =
    let lost =
      container-run_found works temp d spec (lookup_spec specs spec.language spec.version) left in
    (
      ground (arith, lost),
      ground (arith, lost),
      run-Meets IsManaged (λ t. Unit) works temp d specs spec
          λ e v vs found_here. (container_config-IsManaged e.env spec.stdin, tt),
    )

-- However a run ends, its directory is gone once its calls are played back, the removal of it taken to
-- work: a directory that was made is removed.
pub run-workspace :
    (works : Works) (temp : AbsPath) (d : Daemon) (specs : Map LangEntry) (spec : RunSpec)
    → workspace_after works temp false (run works temp d specs spec).calls ≡ false
unfolding run run_found workspace_after
run-workspace works temp d specs spec =
    elim (lookup_spec specs spec.language spec.version)
      as (λ l. workspace_after works temp false (run_found works temp d spec l).calls ≡ false) [
        | refused e ↦ refl
        | found (entry, v, vs) ↦
            workspace-run_in works temp d spec entry vs _
              (dir-setup_workspace works temp spec.code entry.filename spec.workspace_files)
      ]
