-- ===== src/Sandbox/Workspace.antt =====
-- internal/sandbox/docker.go: `setupWorkspace`, the directory of a run that both backends make. The
-- disk answers each operation by success or failure, which may depend on all that was done before.
pub mod Contained
use runboxd.Base.{Bool, List, [], ◌∷◌, if◌then◌else◌}
use runboxd.Base.Text.{Text, text}
use runboxd.Base.Result.{Result, ok, err, ◌>>=◌}
use runboxd.FilePath.{join_path, is_local, dir}
use runboxd.Sandbox.Types.{WorkspaceFile}

-- An absolute path, the last name first.
abbrev pub AbsPath : Type 0
AbsPath = List Text

pub data DiskOp : Type 0 where
  mkdir_temp : DiskOp
  chmod : AbsPath → DiskOp
  mkdir_all : AbsPath → DiskOp
  write_file : AbsPath → Text → DiskOp
  remove_all : AbsPath → DiskOp

pub data SetupError : Type 0 where
  temp_dir_failed chmod_failed input_dir_failed : SetupError
  invalid_path : Text → SetupError
  mkdir_failed write_failed code_failed : SetupError

-- What a function does to the disk, the last operation first, and its error.
abbrev pub Disk : Type 0
Disk = Result (SetupError × List DiskOp) (List DiskOp)

abbrev pub Works : Type 0
Works = List DiskOp → DiskOp → Bool

abbrev pub attempt : Works → SetupError → DiskOp → List DiskOp → Disk
attempt works e op done = if works done op then ok (op ∷ done) else err (e, op ∷ done)

-- The loop over the workspace files.
unfoldable pub write_files : Works → AbsPath → List WorkspaceFile → List DiskOp → Disk
write_files works input_root [] done = ok done
write_files works input_root (wf ∷ wfs) done =
    let dst = join_path input_root wf.path in
    if is_local wf.path
    then attempt works mkdir_failed (mkdir_all (dir dst)) done >>= (λ done'.
      attempt works write_failed (write_file dst wf.content) done'
      >>= (λ done''. write_files works input_root wfs done''))
    else err (invalid_path wf.path, done)

-- From the loop to the end.
unfoldable pub fill_input : Works → AbsPath → Text → Text → List WorkspaceFile → List DiskOp → Disk
fill_input works input_root code filename files done =
    write_files works input_root files done
    >>= attempt works code_failed (write_file (join_path input_root filename) code)

-- The body once `MkdirTemp` has made `temp`.
unfoldable pub fill_workspace : Works → AbsPath → Text → Text → List WorkspaceFile → Disk
fill_workspace works temp code filename files =
    let input_root = join_path temp (text "/input") in
    attempt works chmod_failed (chmod temp) (mkdir_temp ∷ []) >>= (λ done.
      attempt works input_dir_failed (mkdir_all input_root) done
      >>= fill_input works input_root code filename files)

-- The deferred function: on an error the directory that was made is removed.
unfoldable pub on_error : AbsPath → Disk → Disk
on_error temp (ok done) = ok done
on_error temp (err (e, done)) = err (e, remove_all temp ∷ done)

unfoldable pub setup_workspace : Works → AbsPath → Text → Text → List WorkspaceFile → Disk
setup_workspace works temp code filename files =
    if works [] mkdir_temp
    then on_error temp (fill_workspace works temp code filename files)
    else err (temp_dir_failed, mkdir_temp ∷ [])
