-- ===== src/Images/Generate/Dockerfile.antt =====
-- cmd/runboxctl/cmd/images/genimages.go: the template of a Dockerfile, and `createDockerfile`, which
-- brings the two files of a build directory up to date. `quote` is the verb %q of fmt and `json` is
-- `json.Marshal` of a list of strings.
use runboxd.Base.{Bool, true, false, Option, none, some, List, [], ◌∷◌, ◌++◌, if◌then◌else◌}
use runboxd.Base.Text.{Text, text, text_eq}
use runboxd.Images.Build.{BuildDir}
use runboxd.Images.Generate.{
  DockerfileData, ReadEnd, content, missing, unreadable, WriteEnd, up_to_date, written, read_failed,
  write_failed, write_if_changed,
}

pub record Format : Type 0 where
  pub quote : Text → Text
  pub json : List Text → Option Text

-- A line break and the text behind it.
abbrev line : Text → Text
line t = 10 ∷ t

abbrev pub setup_lines : List Text → Text
setup_lines [] = []
setup_lines (s ∷ ss) = line (text "RUN " ++ (s ++ setup_lines ss))

-- `dockerfileTemplate` on its data.
unfoldable pub dockerfile : (quote : Text → Text) → DockerfileData → (run_cmd_json : Text) → Text
dockerfile quote data_ run_cmd_json =
    let build : Text =
      if text_eq data_.kind (text "compiled")
      then line (text "ENV BUILD_CMD=" ++ quote data_.build_cmd)
      else [] in
    text "FROM "
    ++ (data_.base_image
        ++ (build
            ++ (line (text "RUN mkdir -p /input /sandbox")
                ++ (line (text "COPY wrapper.sh /wrapper.sh")
                    ++ (line (text "RUN chmod +x /wrapper.sh")
                        ++ (setup_lines data_.setup
                            ++ (line (text "ENTRYPOINT [\"/wrapper.sh\"]")
                                ++ (line (text "CMD " ++ (run_cmd_json ++ line []))))))))))

-- The two files of a build directory, as they are read.
pub record OutDir : Type 0 where
  pub dockerfile_file : ReadEnd
  pub wrapper_file : ReadEnd

-- Which calls succeed, and what a write that fails leaves.
pub record CreateEnds : Type 0 where
  pub dir_made : Bool
  pub dockerfile_written : Bool
  pub dockerfile_left : ReadEnd
  pub wrapper_written : Bool
  pub wrapper_left : ReadEnd

pub data CreateError : Type 0 where
  no_dir no_json dockerfile_not_written wrapper_not_written : CreateError

abbrev pub is_done : WriteEnd → Bool
is_done up_to_date = true
is_done written = true
is_done read_failed = false
is_done write_failed = false

-- What `writeIfChanged` leaves.
abbrev pub file_after : WriteEnd → (old : ReadEnd) → (new : Text) → (left : ReadEnd) → ReadEnd
file_after up_to_date old new left = old
file_after written old new left = content new
file_after read_failed old new left = old
file_after write_failed old new left = left

unfoldable pub write_wrapper : Text → CreateEnds → OutDir → OutDir × Option CreateError
write_wrapper wrapper ends d =
    let e = write_if_changed d.wrapper_file ends.wrapper_written wrapper in
    (
      record d { wrapper_file = file_after e d.wrapper_file wrapper ends.wrapper_left },
      if is_done e then none else some wrapper_not_written,
    )

-- From the write of the Dockerfile on.
unfoldable pub write_files :
    (dockerfile wrapper : Text) → CreateEnds → OutDir → OutDir × Option CreateError
write_files new wrapper ends d =
    let e = write_if_changed d.dockerfile_file ends.dockerfile_written new in
    let d' : OutDir = record d {
      dockerfile_file = file_after e d.dockerfile_file new ends.dockerfile_left;
    } in
    if is_done e then write_wrapper wrapper ends d' else (d', some dockerfile_not_written)

abbrev pub create_marshalled :
    Format
    → DockerfileData
    → (wrapper : Text) → CreateEnds
    → OutDir
    → Option Text
    → OutDir × Option CreateError
create_marshalled f data_ wrapper ends d none = (d, some no_json)
create_marshalled f data_ wrapper ends d (some run_cmd_json) =
    write_files (dockerfile f.quote data_ run_cmd_json) wrapper ends d

unfoldable pub create_dockerfile :
    Format → DockerfileData → (wrapper : Text) → CreateEnds → OutDir → OutDir × Option CreateError
create_dockerfile f data_ wrapper ends d =
    if ends.dir_made
    then create_marshalled f data_ wrapper ends d (f.json data_.run_cmd)
    else (d, some no_dir)

abbrev pub readable : ReadEnd → Option Text
readable (content t) = some t
readable missing = none
readable unreadable = none

-- The directory as `build-images` and `export-rootfs` read it.
abbrev pub as_build_dir : OutDir → BuildDir
as_build_dir d = record {
  dockerfile = readable d.dockerfile_file;
  wrapper = readable d.wrapper_file;
}
