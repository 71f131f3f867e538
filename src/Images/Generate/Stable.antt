-- ===== src/Images/Generate/Stable.antt =====
-- cmd/runboxctl/cmd/images/genimages.go: what `createDockerfile` leaves, and that doing it again
-- changes nothing.
use runboxd.Base.{
  Bool, true, false, Option, none, some, [], ◌∷◌, ◌++◌, ◌≡◌, refl, ap, ◌∙◌, ◌⊎◌, inl, inr, arith,
  Bool-cases,
}
use runboxd.Base.Text.{Text, text_eq, text_eq_iff, text_eq_refl, is_empty}
use runboxd.Base.Result.{if_ok}
use runboxd.Images.Build.{context_hash}
use runboxd.Images.Generate.{
  DockerfileData, ReadEnd, content, missing, unreadable, WriteEnd, up_to_date, write_if_changed,
}
use runboxd.Images.Generate.Dockerfile.{
  Format, dockerfile, OutDir, CreateEnds, is_done, file_after, write_wrapper, write_files,
  create_marshalled, create_dockerfile, dockerfile_not_written, no_dir, as_build_dir,
}

-- The file reads as the text; one that is not there reads as empty.
abbrev pub Reads : ReadEnd → Text → Type 0
Reads f t = (f ≡ content t) ⊎ ((f ≡ missing) × (t ≡ []))

file-Reads :
    (old : ReadEnd) (works : Bool) (new : Text) (left : ReadEnd)
    → is_done (write_if_changed old works new) ≡ true
    → Reads (file_after (write_if_changed old works new) old new left) new
unfolding write_if_changed
file-Reads unreadable works new left h = absurd (cc)
file-Reads missing works [] left h = inr (refl, refl)
file-Reads missing true (c ∷ new) left h = inl refl
file-Reads missing false (c ∷ new) left h = absurd (cc)
file-Reads (content old) true new left h = elim (Bool-cases (text_eq old new)) [
  | inl same ↦ rw same (inl (ap content ((text_eq_iff old new).0 same)))
  | inr other ↦ rw other (inl refl)
]
file-Reads (content old) false new left h = elim (Bool-cases (text_eq old new)) [
  | inl same ↦ rw same (inl (ap content ((text_eq_iff old new).0 same)))
  | inr other ↦ absurd (ground arith)
]

Reads-up_to_date :
    (f : ReadEnd) (works : Bool) (t : Text) → Reads f t → write_if_changed f works t ≡ up_to_date
unfolding write_if_changed
Reads-up_to_date f works t (inl e) = rw (e, write_if_changed, text_eq_refl t) refl
Reads-up_to_date f works t (inr (e, z)) = rw (e, z) refl

write_wrapper-ok :
    (wrapper : Text) (ends : CreateEnds) (d : OutDir)
    → (write_wrapper wrapper ends d).1 ≡ none
    → Reads (write_wrapper wrapper ends d).0.wrapper_file wrapper
unfolding write_wrapper
write_wrapper-ok wrapper ends d ended =
    file-Reads d.wrapper_file ends.wrapper_written wrapper ends.wrapper_left (ground arith)

-- What a run that returns no error leaves.
AsWritten : (dockerfile wrapper : Text) → OutDir → Type 0
AsWritten new wrapper d = Reads d.dockerfile_file new × Reads d.wrapper_file wrapper

write_files-ok :
    (new wrapper : Text) (ends : CreateEnds) (d : OutDir)
    → (write_files new wrapper ends d).1 ≡ none
    → AsWritten new wrapper (write_files new wrapper ends d).0
unfolding AsWritten write_files write_wrapper
write_files-ok new wrapper ends d ended =
    if_ok (AsWritten new wrapper) (is_done e) (write_wrapper wrapper ends d')
      (d', some dockerfile_not_written)
      (λ done kept. (
        file-Reads d.dockerfile_file ends.dockerfile_written new ends.dockerfile_left done,
        write_wrapper-ok wrapper ends d' kept,
      ))
      (λ undone kept. absurd (cc)) ended
  where
    e : WriteEnd
    e = write_if_changed d.dockerfile_file ends.dockerfile_written new

    d' : OutDir
    d' = record d { dockerfile_file = file_after e d.dockerfile_file new ends.dockerfile_left }

AsWritten-again :
    (new wrapper : Text) (ends : CreateEnds) (d : OutDir)
    → AsWritten new wrapper d
    → write_files new wrapper ends d ≡ (d, none)
unfolding AsWritten write_files write_wrapper
AsWritten-again new wrapper ends d (df, wr) =
    rw
      (
        Reads-up_to_date d.dockerfile_file ends.dockerfile_written new df,
        Reads-up_to_date d.wrapper_file ends.wrapper_written wrapper wr,
      )
      refl

Reads-content : (f : ReadEnd) (t : Text) → is_empty t ≡ false → Reads f t → f ≡ content t
Reads-content f t some_text (inl e) = e
Reads-content f t some_text (inr (e, z)) = absurd (ground arith)

both_content :
    (new wrapper : Text) (d : OutDir)
    → is_empty new ≡ false
    → is_empty wrapper ≡ false
    → AsWritten new wrapper d
    → d ≡ record { dockerfile_file = content new; wrapper_file = content wrapper }
unfolding AsWritten
both_content new wrapper d some_new some_wrapper (df, wr) =
    rw
      (
        Reads-content d.dockerfile_file new some_new df,
        Reads-content d.wrapper_file wrapper some_wrapper wr,
      )
      refl

some_dockerfile :
    (quote : Text → Text) (data_ : DockerfileData) (j : Text)
    → is_empty (dockerfile quote data_ j) ≡ false
unfolding dockerfile
some_dockerfile quote data_ j = refl

module _ (sha256 : Text → Text) (f : Format) (data_ : DockerfileData) (wrapper : Text)
    (ends' : CreateEnds) (d : OutDir) where
  -- A build directory that has the two files, and keeps them.
  pub record IsStable (out : OutDir) : Type 0 where
    pub json : Text
    pub marshalled : f.json data_.run_cmd ≡ some json
    pub dockerfile_file : out.dockerfile_file ≡ content (dockerfile f.quote data_ json)
    pub wrapper_file : out.wrapper_file ≡ content wrapper
    pub again : create_dockerfile f data_ wrapper ends' out ≡ (out, none)
    pub hash :
        context_hash sha256 (as_build_dir out)
        ≡ some (sha256 (dockerfile f.quote data_ json ++ wrapper))

  again_eq :
      (out : OutDir) (o : Option Text)
      → ends'.dir_made ≡ true
      → f.json data_.run_cmd ≡ o
      → create_dockerfile f data_ wrapper ends' out ≡ create_marshalled f data_ wrapper ends' out o
  unfolding create_dockerfile
  again_eq out o made e = rw (made, e) refl

  marshalled-IsStable :
      (ends : CreateEnds) (o : Option Text)
      → f.json data_.run_cmd ≡ o
      → is_empty wrapper ≡ false
      → ends'.dir_made ≡ true
      → (create_marshalled f data_ wrapper ends d o).1 ≡ none
      → IsStable (create_marshalled f data_ wrapper ends d o).0
  unfolding context_hash
  marshalled-IsStable ends none e some_wrapper made ended = absurd (cc)
  marshalled-IsStable ends (some j) e some_wrapper made ended =
      let new = dockerfile f.quote data_ j in
      let as_written = write_files-ok new wrapper ends d ended in
      let out =
        both_content new wrapper _ (some_dockerfile f.quote data_ j) some_wrapper as_written in
      record {
        json = j;
        marshalled = e;
        dockerfile_file = ap (λ (x : OutDir). x.dockerfile_file) out;
        wrapper_file = ap (λ (x : OutDir). x.wrapper_file) out;
        again = again_eq _ (some j) made e ∙ AsWritten-again new wrapper ends' _ as_written;
        hash = ap (λ (x : OutDir). context_hash sha256 (as_build_dir x)) out;
      }

  -- A run of `createDockerfile` that returns no error, for a wrapper script that is not empty, leaves
  -- the Dockerfile of its data and the script in the build directory, whose hash is that of the two.
  -- Where it is run again on that directory, and the directory can be made, it writes nothing and
  -- returns no error, whichever writes would fail; so the hash stays what it was.
  pub create_dockerfile-IsStable :
      (ends : CreateEnds)
      → is_empty wrapper ≡ false
      → ends'.dir_made ≡ true
      → (create_dockerfile f data_ wrapper ends d).1 ≡ none
      → IsStable (create_dockerfile f data_ wrapper ends d).0
  unfolding create_dockerfile
  create_dockerfile-IsStable ends some_wrapper made ended =
      if_ok IsStable ends.dir_made (create_marshalled f data_ wrapper ends d (f.json data_.run_cmd))
        (d, some no_dir)
        (λ here. marshalled-IsStable ends (f.json data_.run_cmd) refl some_wrapper made)
        (λ not_here failed. absurd (cc)) ended

-- An empty wrapper script is not copied into a new directory, which then has no hash.
empty_wrapper-no_hash :
    (sha256 : Text → Text) (f : Format) (data_ : DockerfileData) (j : Text) (ends : CreateEnds)
    → f.json data_.run_cmd ≡ some j
    → (ends.dir_made ≡ true) × (ends.dockerfile_written ≡ true)
    → ((create_dockerfile f data_ [] ends
          (record { dockerfile_file = missing; wrapper_file = missing })).1
        ≡ none)
      × (context_hash sha256 (
            as_build_dir
              (create_dockerfile f data_ [] ends
                (record { dockerfile_file = missing; wrapper_file = missing })).0)
          ≡ none)
unfolding create_dockerfile write_files write_wrapper write_if_changed context_hash
empty_wrapper-no_hash sha256 f data_ j ends json (made, written_too) =
    rw (made, json, some_dockerfile f.quote data_ j, written_too) (refl, refl)
