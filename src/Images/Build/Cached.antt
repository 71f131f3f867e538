-- ===== src/Images/Build/Cached.antt =====
-- cmd/runboxctl/cmd/images/buildimages.go: the hash file and the image it stands for.
use runboxd.Base.{◌≡◌, refl, sym, ap, ◌∙◌, Bool, true, not, ◌&&◌, Option, none, some, arith}
use runboxd.Base.Text.{Text, text_eq_iff, is_empty}
use runboxd.Base.Result.{if_ok}
use runboxd.Images.Generate.{ReadEnd, content, missing, unreadable}
use runboxd.Images.Build.{
  BuildDir, context_hash, BuildState, BuildEnds, should_build_image, build_image, curr_hash,
  build_version_of, build_version, is_unreadable, hash_unreadable,
}

-- The image was made from a directory with the hash in the file.
abbrev pub IsCached : (Text → Text) → BuildState → Type 0
IsCached sha256 s =
    (h : Text) (image : BuildDir)
    → s.hash_file ≡ content h
    → s.image ≡ some image
    → context_hash sha256 image ≡ some h

-- What a pass without an error leaves.
abbrev pub IsFresh : (Text → Text) → BuildDir → BuildState → Type 0
IsFresh sha256 dir s =
    (image : BuildDir) × (s.image ≡ some image)
    × (context_hash sha256 image ≡ context_hash sha256 dir)
    × IsCached sha256 s

module _ (sha256 : Text → Text) (no_cache : Bool) (dir : BuildDir) (ends : BuildEnds)
    (s : BuildState) where
  build_image-ok :
      (h : Text)
      → (build_image dir h ends s).1 ≡ none
      → (build_image dir h ends s).0 ≡ record { hash_file = content h; image = some dir }
  unfolding build_image
  build_image-ok h ended = ground arith

  build_image-IsFresh :
      (h : Text)
      → context_hash sha256 dir ≡ some h
      → (build_image dir h ends s).1 ≡ none
      → IsFresh sha256 dir (build_image dir h ends s).0
  build_image-IsFresh h hashed ended =
      let e = build_image-ok h ended in
      let file = ap (λ (t : BuildState). t.hash_file) e in
      let tag = ap (λ (t : BuildState). t.image) e in
      (dir, tag, refl, λ h' image in_file is_image. cc)

  abbrev is_up_to_date : Text → Bool
  is_up_to_date h =
      let curr = curr_hash s.hash_file in
      not no_cache && not (is_empty curr) && not (should_build_image ends.inspected h curr)

  skipped :
      (h : Text) (file : ReadEnd)
      → s.hash_file ≡ file
      → (not no_cache
          && not (is_empty (curr_hash file))
          && not (should_build_image ends.inspected h (curr_hash file)))
        ≡ true
      → (s.hash_file ≡ content h) × (ends.inspected ≡ true)
  unfolding should_build_image
  skipped h (content c) is_file up_to_date =
      let same : c ≡ h = ground (arith, text_eq_iff h c) in
      (is_file ∙ ap content same, ground arith)
  skipped h missing is_file up_to_date = absurd (ground arith)
  skipped h unreadable is_file up_to_date = absurd (ground arith)

  of_hash :
      (o : Option Text)
      → context_hash sha256 dir ≡ o
      → IsCached sha256 s
      → (ends.inspected ≡ true → (image : BuildDir) × (s.image ≡ some image))
      → (build_version_of o no_cache dir ends s).1 ≡ none
      → IsFresh sha256 dir (build_version_of o no_cache dir ends s).0
  of_hash none hashed cached present ended = absurd (cc)
  of_hash (some h) hashed cached present ended =
      if_ok (IsFresh sha256 dir) (is_up_to_date h) (s, none) (build_image dir h ends s)
        (λ up_to_date kept.
          let (in_file, inspected) = skipped h s.hash_file refl up_to_date in
          let (image, tag) = present inspected in
          (image, tag, cached h image in_file tag ∙ sym hashed, cached))
        (λ stale. build_image-IsFresh h hashed) ended

  -- Where the hash file, if there is one, holds the hash of the directory that the tagged image was
  -- made from, and `docker inspect` succeeds only where there is an image, a pass that returns no error
  -- leaves an image made from a directory with the hash of the present one, and the hash file still
  -- holds the hash of the image's directory.
  pub build_version-IsFresh :
      IsCached sha256 s
      → (ends.inspected ≡ true → (image : BuildDir) × (s.image ≡ some image))
      → (build_version sha256 no_cache dir ends s).1 ≡ none
      → IsFresh sha256 dir (build_version sha256 no_cache dir ends s).0
  unfolding build_version
  build_version-IsFresh cached present ended =
      if_ok (IsFresh sha256 dir) (is_unreadable s.hash_file) (s, some hash_unreadable)
        (build_version_of (context_hash sha256 dir) no_cache dir ends s)
        (λ unread failed. absurd (cc))
        (λ read. of_hash (context_hash sha256 dir) refl cached present) ended
