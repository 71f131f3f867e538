-- ===== src/Images/Rootfs/Exported.antt =====
-- cmd/runboxctl/cmd/images/exportrootfs.go: what `export-rootfs` leaves where it ends without an error.
use runboxd.Base.{
  Bool, false, Option, none, some, List, [], ◌∷◌, ◌≡◌, refl, sym, ap, subst, ◌∙◌, All, ◌⊎◌,
}
use mathlib.Core.List.{Permᴰ}
use runboxd.Base.Text.{Text, text_eq, text_eq_refl, text_eq_sym}
use runboxd.Base.Map.{Map}
use runboxd.Base.Result.{Result, ok}
use runboxd.Registry.Types.{Language}
use runboxd.Registry.Filter.{load_filtered}
use runboxd.ImageSpec.Types.{LangFilter}
use runboxd.ImageSpec.Load.{LoadError}
use runboxd.Images.Validate.{load_lang_filter}
use runboxd.Images.Group.{Target, targets, run_group, run_group-ok, AllApart, All-perm, put}
use runboxd.Images.Build.{context_hash}
use runboxd.Images.Rootfs.{Rootfs, ExportError, export_version}
use runboxd.Images.Rootfs.Ready.{IsExported, IsUpToDate, export_version-ok}
use runboxd.Images.Rootfs.Command.{
  Exports, Outside, dest, export_target, CommandError, with_error, export_languages,
  export_filtered, run_export_rootfs,
}

-- Two versions have different directories.
abbrev pub Apart : Target → Target → Type 0
Apart t u = text_eq (dest t) (dest u) ≡ false

module _ (sha256 : Text → Text) (force : Bool) (o : Outside) (before : Exports) where
  -- What an export without an error leaves of one version, which had the file system `before`.
  abbrev pub Exported : Target → Exports → Type 0
  Exported t s =
      (h : Text) × (context_hash sha256 (o.build_dir t.entry t.version.name) ≡ some h)
      × ((IsUpToDate h force (before (dest t)) × (s (dest t) ≡ before (dest t)))
          ⊎ IsExported h (o.images t.version.image) (s (dest t)))

  abbrev Untouched : Target → Exports → Type 0
  Untouched t s = s (dest t) ≡ before (dest t)

  at_self :
      (t : Target) (s : Exports)
      → (export_target sha256 force o t s).0 (dest t)
        ≡ (export_version sha256 force
            (o.build_dir t.entry t.version.name)
            (o.ends t.entry t.version.name)
            (o.images t.version.image)
            (s (dest t))).0
  unfolding export_target put
  at_self t s = rw (text_eq_refl (dest t)) refl

  at-Apart :
      (t u : Target) (s : Exports)
      → Apart t u
      → (export_target sha256 force o t s).0 (dest u) ≡ s (dest u)
  unfolding export_target put
  at-Apart t u s apart = rw apart refl

  OfVersion : Target → Rootfs → Rootfs → Type 0
  OfVersion t old new =
      (h : Text) × (context_hash sha256 (o.build_dir t.entry t.version.name) ≡ some h)
      × ((IsUpToDate h force old × (new ≡ old)) ⊎ IsExported h (o.images t.version.image) new)

  target-Exported :
      (t : Target) (s : Exports)
      → Untouched t s
      → (export_target sha256 force o t s).1 ≡ none
      → Exported t (export_target sha256 force o t s).0
  unfolding export_target OfVersion
  target-Exported t s same ended =
      subst (λ new. OfVersion t (before (dest t)) new) (sym (at_self t s))
        (subst
          (λ old.
            OfVersion t old
              (export_version sha256 force (o.build_dir t.entry t.version.name)
                (o.ends t.entry t.version.name) (o.images t.version.image) (s (dest t))).0)
          same
          (export_version-ok sha256 force (o.build_dir t.entry t.version.name)
            (o.ends t.entry t.version.name) (o.images t.version.image) (s (dest t)) ended))

  group-Exported :
      (ts : List Target)
      → AllApart Apart ts
      → (run_group (export_target sha256 force o) ts before).1 ≡ none
      → All (λ t. Exported t (run_group (export_target sha256 force o) ts before).0) ts
  unfolding OfVersion
  group-Exported ts apart ended =
      run_group-ok (export_target sha256 force o) Apart Untouched Exported target-Exported
        (λ t u s apart same. at-Apart t u s apart ∙ same)
        (λ t u s apart post.
          subst (OfVersion u (before (dest u))) (sym (at-Apart t u s (text_eq_sym _ _ apart))) post)
        ts before apart (untouched ts) ended
    where
      untouched : (ts : List Target) → All (λ t. Untouched t before) ts
      untouched [] = tt
      untouched (t ∷ ts) = (refl, untouched ts)

  error-none :
      (r : Exports × Option ExportError)
      → (with_error r).1 ≡ none
      → (r.1 ≡ none) × ((with_error r).0 ≡ r.0)
  error-none (s, none) h = (refl, refl)
  error-none (s, some e) h = absurd (cc)

  ordered-Exported :
      (order : List Target → List Target) (languages : Map Language)
      → Permᴰ (order (targets languages)) (targets languages)
      → AllApart Apart (order (targets languages))
      → (export_languages sha256 force o order before (ok languages)).1 ≡ none
      → All
          (λ t. Exported t (export_languages sha256 force o order before (ok languages)).0)
          (targets languages)
  ordered-Exported order languages perm apart ended =
      let group = run_group (export_target sha256 force o) (order (targets languages)) before in
      let (no_error, same) = error-none group ended in
      All-perm _ perm (
        subst (λ h. All (λ t. Exported t h) (order (targets languages))) (sym same)
          (group-Exported (order (targets languages)) apart no_error))

  -- Whatever the order in which the goroutines of the group run: where the versions that the filter
  -- asks for have different directories, a run without an error leaves, for every one of them, either
  -- the file system that it had, without --force, because its digest file matches the hash of the
  -- build directory and its directory is not empty, or the whole file system of the version's image
  -- with every mount point and the hash in the digest file.
  pub run_export_rootfs-ok :
      (order : List Target → List Target) (loaded : Result (List LoadError) (Map Language))
      (raw : List Text) (filter : Option LangFilter) (languages : Map Language)
      → load_lang_filter raw false ≡ ok filter
      → load_filtered loaded filter ≡ ok languages
      → Permᴰ (order (targets languages)) (targets languages)
      → AllApart Apart (order (targets languages))
      → (run_export_rootfs sha256 force o order loaded raw before).1 ≡ none
      → All
          (λ t. Exported t (run_export_rootfs sha256 force o order loaded raw before).0)
          (targets languages)
  unfolding run_export_rootfs
  run_export_rootfs-ok order loaded raw filter languages parsed filtered perm apart ended =
      let same : export_filtered sha256 force o order loaded before (load_lang_filter raw false)
          ≡ export_languages sha256 force o order before (ok languages) =
        rw (parsed, filtered) refl in
      subst (λ (r : Exports × Option CommandError). All (λ t. Exported t r.0) (targets languages))
        (sym same)
        (ordered-Exported order languages perm apart
          (ap (λ (r : Exports × Option CommandError). r.1) (sym same) ∙ ended))
