-- ===== src/Images/Rootfs/Ready.antt =====
-- cmd/runboxctl/cmd/images/exportrootfs.go: when a rootfs is exported anew and when it is left alone.
use runboxd.Base.{
  ◌≡◌, refl, Bool, true, false, not, ◌&&◌, Option, none, some, List, [], ◌∷◌, arith, inl, inr, ◌⊎◌,
  if◌then◌else◌,
}
use runboxd.Base.Text.{Text}
use runboxd.Base.Result.{if_ok}
use runboxd.Images.Generate.{ReadEnd, content}
use runboxd.Images.Build.{BuildDir, context_hash}
use runboxd.Images.Rootfs.{
  is_exported, PipeEnds, export_rootfs, start_export, start_tar, wait_export, export_failed, Dest,
  gone, tree, empty_tree, dir_exists_and_not_empty, Rootfs, ExportEnds, mounted, mount_dirs,
  device_files, make_each, fill, created, export_tree, digest_matches, export_hashed,
  export_version, not_exported, not_created, not_removed, not_made,
}

-- The whole file system of an image with all mount points.
abbrev pub whole : BuildDir → Dest
whole image = mounted image mount_dirs device_files

make_each-all :
    (works : Text → Bool) (names : List Text)
    → (make_each works names).1 ≡ true
    → (make_each works names).0 ≡ names
unfolding make_each
make_each-all works [] made = refl
make_each-all works (name ∷ names) made = ground (arith, make_each-all works names)

-- How a pass without an error ends: it wrote the whole of the image, or it found the digest file to
-- match and the directory not to be empty.
abbrev pub IsExported : Text → Option BuildDir → Rootfs → Type 0
IsExported hash image r =
    (i : BuildDir) × (image ≡ some i) × (r ≡ record { dest = whole i; digest = content hash })

abbrev pub IsUpToDate : Text → (force : Bool) → Rootfs → Type 0
IsUpToDate hash force r =
    (force ≡ false)
    × (digest_matches r.digest hash ≡ true)
    × (dir_exists_and_not_empty r.dest ≡ true)

module _ (ends : ExportEnds) where
  fill-ok :
      (hash : Text) (image : BuildDir) (digest : ReadEnd)
      → (fill hash ends image digest).1 ≡ none
      → (fill hash ends image digest).0 ≡ record { dest = whole image; digest = content hash }
  unfolding fill
  fill-ok hash image digest ended =
      ground
        (arith, make_each-all ends.dir_made mount_dirs, make_each-all ends.device_made device_files)

  created-ok :
      (hash : Text) (image : Option BuildDir) (digest : ReadEnd)
      → (created hash ends image digest).1 ≡ none
      → IsExported hash image (created hash ends image digest).0
  created-ok hash none digest ended = absurd (cc)
  created-ok hash (some image) digest ended =
      if_ok (IsExported hash (some image)) ends.container_made (fill hash ends image digest)
        (record { dest = tree empty_tree; digest = digest }, some not_created)
        (λ made filled. (image, refl, fill-ok hash image digest filled))
        (λ made failed. absurd (cc)) ended

  export_tree-ok :
      (hash : Text) (image : Option BuildDir) (r : Rootfs)
      → (export_tree hash ends image r).1 ≡ none
      → IsExported hash image (export_tree hash ends image r).0
  unfolding export_tree
  export_tree-ok hash image r ended =
      if_ok (IsExported hash image) (not ends.removed)
        (record { dest = ends.not_removed_left; digest = r.digest }, some not_removed)
        (if not ends.made
          then (record { dest = gone; digest = r.digest }, some not_made)
          else created hash ends image r.digest)
        (λ kept failed. absurd (cc))
        (λ removed.
          if_ok (IsExported hash image) (not ends.made)
            (record { dest = gone; digest = r.digest }, some not_made)
            (created hash ends image r.digest) (λ missing failed. absurd (cc))
            (λ made. created-ok hash image r.digest))
        ended

module _ (sha256 : Text → Text) (force : Bool) (dir : BuildDir) (ends : ExportEnds) where
  of_hash :
      (hash : Option Text) (image : Option BuildDir) (r : Rootfs)
      → (export_hashed hash force ends image r).1 ≡ none
      → (h : Text) × (hash ≡ some h)
        × ((IsUpToDate h force r × ((export_hashed hash force ends image r).0 ≡ r))
            ⊎ IsExported h image (export_hashed hash force ends image r).0)
  of_hash none image r ended = absurd (cc)
  of_hash (some h) image r ended = (
    h,
    refl,
    if_ok (λ r'. (IsUpToDate h force r × (r' ≡ r)) ⊎ IsExported h image r')
        (not force && (digest_matches r.digest h && dir_exists_and_not_empty r.dest)) (r, none)
        (export_tree h ends image r)
        (λ up_to_date kept. inl ((ground arith, ground arith, ground arith), refl))
        (λ stale exported. inr (export_tree-ok ends h image r exported)) ended,
  )

  -- A pass that returns no error has the hash of the build directory, and either it left a rootfs as it
  -- is, without --force, because its digest file matches the hash and its directory is not empty, or
  -- the directory holds the whole file system of the version's image with every mount point and the
  -- digest file holds the hash.
  pub export_version-ok :
      (image : Option BuildDir) (r : Rootfs)
      → (export_version sha256 force dir ends image r).1 ≡ none
      → (h : Text) × (context_hash sha256 dir ≡ some h)
        × ((IsUpToDate h force r × ((export_version sha256 force dir ends image r).0 ≡ r))
            ⊎ IsExported h image (export_version sha256 force dir ends image r).0)
  unfolding export_version
  export_version-ok image r ended = of_hash (context_hash sha256 dir) image r ended

module _ (sha256 : Text → Text) (dir : BuildDir) (ends : ExportEnds) where
  -- Where the digest file matches the build directory, a pass with --force whose export of the
  -- container fails and leaves some files returns that error, and the pass after it, without --force,
  -- returns none and leaves the unfinished directory as it is, for every way its calls may end.
  pub export_version-skips_partial :
      (ends' : ExportEnds) (h : Text) (image : BuildDir) (r : Rootfs)
      → context_hash sha256 dir ≡ some h
      → digest_matches r.digest h ≡ true
      → (ends.removed ≡ true)
        × (ends.made ≡ true)
        × (ends.container_made ≡ true)
        × (is_exported ends.pipe ≡ false)
      → dir_exists_and_not_empty (tree ends.not_exported_left) ≡ true
      → (export_version sha256 true dir ends (some image) r
          ≡ (record { dest = tree ends.not_exported_left; digest = r.digest }, some not_exported))
        × (export_version sha256 false dir ends'
              (some image)
              (record { dest = tree ends.not_exported_left; digest = r.digest })
            ≡ (record { dest = tree ends.not_exported_left; digest = r.digest }, none))
  unfolding export_version export_tree fill
  export_version-skips_partial ends' h image r hashed matches (removed, made, container, exported)
        left =
      (rw (hashed, removed, made, container, exported), rw (hashed, matches, left))

-- Where `docker export` fails, nothing waits for the end of `tar`.
tar_not_awaited :
    (p : PipeEnds)
    → (p.piped ≡ true) × (p.export_started ≡ true) × (p.tar_started ≡ true)
    → p.export_succeeded ≡ false
    → export_rootfs p ≡ (start_export ∷ start_tar ∷ wait_export ∷ [], some export_failed)
unfolding export_rootfs
tar_not_awaited p (piped, export_too, tar) failed = rw (piped, export_too, tar, failed) refl
