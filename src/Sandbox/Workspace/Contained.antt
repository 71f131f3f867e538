-- ===== src/Sandbox/Workspace/Contained.antt =====
-- internal/sandbox/docker.go: where `setupWorkspace` writes, whatever the names of the files are.
use runboxd.Base.{
  true, false, List, [], ◌∷◌, ◌++◌, ◌≡◌, refl, sym, ap, ◌∙◌, All, Bool-cases, inl, inr,
  if◌then◌else◌, append_assoc,
}
use runboxd.Base.Text.{Text, text, split}
use runboxd.Base.Result.{ok, err, ◌>>=◌}
use runboxd.FilePath.{join_path, join_path-is_local, is_local, clean, dir, abs_walk, classify}
use runboxd.Sandbox.Types.{WorkspaceFile}
use runboxd.Sandbox.Workspace.{
  Works, AbsPath, Disk, SetupError, DiskOp, mkdir_temp, chmod, mkdir_all, write_file, remove_all,
  attempt, mkdir_failed, write_failed, temp_dir_failed, fill_input, chmod_failed, input_dir_failed,
  code_failed, write_files, fill_workspace, on_error, setup_workspace,
}

-- `p` is `root` or lies below it.
abbrev pub Below : AbsPath → AbsPath → Type 0
Below root p = (q : List Text) × (p ≡ q ++ root)

-- An operation of a run whose directory is `temp`: files are written below its `input` only, and
-- nothing outside `temp` is touched.
abbrev pub IsContained : AbsPath → DiskOp → Type 0
IsContained temp mkdir_temp = Unit
IsContained temp (chmod p) = p ≡ temp
IsContained temp (mkdir_all p) = Below temp p
IsContained temp (write_file p content) = Below (text "input" ∷ temp) p
IsContained temp (remove_all p) = p ≡ temp

-- What was done to the disk, however the function ends.
abbrev pub ops_of : Disk → List DiskOp
ops_of (ok ops) = ops
ops_of (err (e, ops)) = ops

module _ (temp : AbsPath) where
  input_root-temp : join_path temp (text "/input") ≡ text "input" ∷ temp
  unfolding join_path abs_walk split classify
  input_root-temp = refl

  abbrev Contained : List DiskOp → Type 0
  Contained = All (IsContained temp)

  attempt-Contained :
      (works : Works) (e : SetupError) (op : DiskOp) (done : List DiskOp)
      → IsContained temp op
      → Contained done
      → Contained (ops_of (attempt works e op done))
  attempt-Contained works e op done o h =
      elim (works done op)
        as (λ b. Contained (ops_of (if b then ok (op ∷ done) else err (e, op ∷ done)))) [
          | true ↦ (o, h)
          | false ↦ (o, h)
        ]

  -- One operation, and what follows it where it works.
  >>=-Contained :
      (works : Works) (e : SetupError) (op : DiskOp) (done : List DiskOp) (f : List DiskOp → Disk)
      → IsContained temp op
      → Contained done
      → ((done' : List DiskOp) → Contained done' → Contained (ops_of (f done')))
      → Contained (ops_of (attempt works e op done >>= f))
  >>=-Contained works e op done f o h k =
      elim (works done op)
        as (λ b. Contained (ops_of ((if b then ok (op ∷ done) else err (e, op ∷ done)) >>= f))) [
          | true ↦ k (op ∷ done) (o, h)
          | false ↦ (o, h)
        ]

  -- A file's place, and the directory of it.
  place-Below :
      (p : Text)
      → is_local p ≡ true
      → Below (text "input" ∷ temp) (join_path (text "input" ∷ temp) p)
        × Below temp (dir (join_path (text "input" ∷ temp) p))
  place-Below p local =
      let place = join_path-is_local (text "input" ∷ temp) p local in
      (
        (clean p, place),
        elim (clean p)
              as (λ c.
                join_path (text "input" ∷ temp) p ≡ c ++ (text "input" ∷ temp)
                → Below temp (dir (join_path (text "input" ∷ temp) p))) [
                  | [] ↦ λ h. ([], ap dir h)
                  | x ∷ c ↦ λ h. (
                    c ++ (text "input" ∷ []),
                    ap dir h ∙ sym (append_assoc c (text "input" ∷ []) temp),
                  )
                ]
            place,
      )

  write_files-Contained :
      (works : Works) (files : List WorkspaceFile) (done : List DiskOp)
      → Contained done
      → Contained (ops_of (write_files works (text "input" ∷ temp) files done))
  unfolding write_files
  write_files-Contained works [] done h = h
  write_files-Contained works (wf ∷ wfs) done h = elim (Bool-cases (is_local wf.path)) [
    | inr foreign ↦ rw foreign h
    | inl local ↦
        let (place, parent) = place-Below wf.path local in
        let dst = join_path (text "input" ∷ temp) wf.path in
        rw local (
          >>=-Contained works mkdir_failed (mkdir_all (dir dst)) done
            (λ a.
              attempt works write_failed (write_file dst wf.content) a
              >>= write_files works (text "input" ∷ temp) wfs)
            parent h
            (λ a ha.
              >>=-Contained works write_failed (write_file dst wf.content) a
                (write_files works (text "input" ∷ temp) wfs) place ha
                (write_files-Contained works wfs)))
  ]

  code-Contained :
      (works : Works) (code filename : Text)
      → is_local filename ≡ true
      → (m : Disk) → Contained (ops_of m)
      → Contained (
          ops_of (
            m
            >>= attempt works code_failed
                (write_file (join_path (text "input" ∷ temp) filename) code)))
  code-Contained works code filename local (ok done) h =
      attempt-Contained works code_failed _ done (place-Below filename local).0 h
  code-Contained works code filename local (err (e, done)) h = h

  fill_workspace-Contained :
      (works : Works) (code filename : Text) (files : List WorkspaceFile)
      → is_local filename ≡ true
      → Contained (ops_of (fill_workspace works temp code filename files))
  unfolding fill_workspace fill_input
  fill_workspace-Contained works code filename files local =
      let fill = fill_input works (text "input" ∷ temp) code filename files in
      rw input_root-temp (
        >>=-Contained works chmod_failed (chmod temp) (mkdir_temp ∷ [])
          (λ done. attempt works input_dir_failed (mkdir_all (text "input" ∷ temp)) done >>= fill)
          refl (tt, tt)
          (λ a ha.
            >>=-Contained works input_dir_failed (mkdir_all (text "input" ∷ temp)) a fill
              (text "input" ∷ [], refl) ha
              (λ b hb.
                code-Contained works code filename local
                  (write_files works (text "input" ∷ temp) files b)
                  (write_files-Contained works files b hb))))

  on_error-Contained : (m : Disk) → Contained (ops_of m) → Contained (ops_of (on_error temp m))
  unfolding on_error
  on_error-Contained (ok done) h = h
  on_error-Contained (err (e, done)) h = (refl, h)

  -- If the language's file name is local, then whatever paths the request gives its files, and
  -- however the disk answers, nothing is written outside the `input` directory of the run, and
  -- nothing outside the directory of the run is touched.
  pub setup_workspace-Contained :
      (works : Works) (code filename : Text) (files : List WorkspaceFile)
      → is_local filename ≡ true
      → All (IsContained temp) (ops_of (setup_workspace works temp code filename files))
  unfolding setup_workspace
  setup_workspace-Contained works code filename files local =
      elim (works [] mkdir_temp)
        as (λ b. Contained (
          ops_of (
            if b
            then on_error temp (fill_workspace works temp code filename files)
            else err (temp_dir_failed, mkdir_temp ∷ [])))) [
              | true ↦
                  on_error-Contained _ (fill_workspace-Contained works code filename files local)
              | false ↦ (tt, tt)
            ]
