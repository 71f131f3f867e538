-- ===== src/Images/Build/Fresh.antt =====
-- cmd/runboxctl/cmd/images/buildimages.go: what `build-images` leaves where it ends without an error.
use runboxd.Base.{
  Bool, true, false, ◌&&◌, Option, none, some, List, ◌≡◌, refl, sym, ap, subst, ◌∙◌, All, arith,
}
use mathlib.Core.List.{Permᴰ}
use runboxd.Base.Text.{Text, text_eq, text_eq_sym, text_eq_refl}
use runboxd.Base.Map.{Map}
use runboxd.Base.Result.{Result, ok}
use runboxd.Registry.Types.{Language}
use runboxd.Registry.Filter.{load_filtered}
use runboxd.ImageSpec.Types.{LangFilter}
use runboxd.ImageSpec.Load.{LoadError}
use runboxd.Images.Validate.{load_lang_filter}
use runboxd.Images.Group.{Target, targets, run_group, run_group-ok, AllApart, All-perm, put}
use runboxd.Images.Build.{BuildError, build_version}
use runboxd.Images.Build.Cached.{IsCached, IsFresh, build_version-IsFresh}
use runboxd.Images.Build.Command.{
  Host, Outside, hash_file_name, dir_of, is_some, ends_in, view, build_target, CommandError,
  with_error, build_languages, build_filtered, run_build_images,
}

-- Two versions share neither a hash file nor a tag.
abbrev pub Apart : Target → Target → Type 0
Apart t u =
    (text_eq (hash_file_name t) (hash_file_name u) ≡ false)
    × (text_eq t.version.image u.version.image ≡ false)

some-of {ℓ} :
    {X : Type ℓ} (b : Bool) (o : Option X) → (b && is_some o) ≡ true → (x : X) × (o ≡ some x)
some-of b none h = absurd (ground arith)
some-of b (some x) h = (x, refl)

module _ (sha256 : Text → Text) (no_cache : Bool) (o : Outside) where
  view_self :
      (t : Target) (s : Host)
      → view t (build_target sha256 no_cache o t s).0
        ≡ (build_version sha256 no_cache (dir_of o t) (ends_in o t s) (view t s)).0
  unfolding build_target put
  view_self t s = rw (text_eq_refl (hash_file_name t), text_eq_refl t.version.image) refl

  view-Apart :
      (t u : Target) (s : Host)
      → Apart t u
      → view u (build_target sha256 no_cache o t s).0 ≡ view u s
  unfolding build_target put
  view-Apart t u s (files, tags) = rw (files, tags) refl

  Pre : Target → Host → Type 0
  Pre t s = IsCached sha256 (view t s)

  -- What a build without an error leaves of one version.
  abbrev pub Built : Target → Host → Type 0
  Built t s = IsFresh sha256 (dir_of o t) (view t s)

  target-Built :
      (t : Target) (s : Host)
      → Pre t s
      → (build_target sha256 no_cache o t s).1 ≡ none
      → Built t (build_target sha256 no_cache o t s).0
  unfolding Pre build_target
  target-Built t s cached ended = subst (IsFresh sha256 (dir_of o t)) (sym (view_self t s)) (
      build_version-IsFresh sha256 no_cache (dir_of o t) (ends_in o t s) (view t s) cached
        (λ inspected. some-of _ _ inspected) ended)

  group-Built :
      (ts : List Target) (s : Host)
      → AllApart Apart ts
      → All (λ t. IsCached sha256 (view t s)) ts
      → (run_group (build_target sha256 no_cache o) ts s).1 ≡ none
      → All (λ t. Built t (run_group (build_target sha256 no_cache o) ts s).0) ts
  unfolding Pre
  group-Built ts s apart cached ended =
      run_group-ok (build_target sha256 no_cache o) Apart Pre Built target-Built
        (λ t u s apart pre. subst (IsCached sha256) (sym (view-Apart t u s apart)) pre)
        (λ t u s (files, tags) post.
          subst (IsFresh sha256 (dir_of o u))
            (sym (view-Apart t u s (text_eq_sym _ _ files, text_eq_sym _ _ tags))) post)
        ts s apart cached ended

  error-none :
      (r : Host × Option BuildError)
      → (with_error r).1 ≡ none
      → (r.1 ≡ none) × ((with_error r).0 ≡ r.0)
  error-none (s, none) h = (refl, refl)
  error-none (s, some e) h = absurd (cc)

  ordered-Built :
      (order : List Target → List Target) (languages : Map Language) (s : Host)
      → Permᴰ (order (targets languages)) (targets languages)
      → AllApart Apart (order (targets languages))
      → All (λ t. IsCached sha256 (view t s)) (order (targets languages))
      → (build_languages sha256 no_cache o order s (ok languages)).1 ≡ none
      → All
          (λ t. Built t (build_languages sha256 no_cache o order s (ok languages)).0)
          (targets languages)
  ordered-Built order languages s perm apart cached ended =
      let group = run_group (build_target sha256 no_cache o) (order (targets languages)) s in
      let (no_error, same) = error-none group ended in
      All-perm _ perm (
        subst (λ h. All (λ t. Built t h) (order (targets languages))) (sym same)
          (group-Built (order (targets languages)) s apart cached no_error))

  -- Whatever the order in which the goroutines of the group run: where no two of the versions that
  -- the filter asks for share a hash file or a tag, and each hash file that is there holds the hash of
  -- the directory that its image was made from, a run without an error leaves, for every one of these
  -- versions, an image made from a directory with the hash of the present one, and hash files that
  -- still mean what they say.
  pub run_build_images-fresh :
      (order : List Target → List Target) (loaded : Result (List LoadError) (Map Language))
      (raw : List Text) (filter : Option LangFilter) (languages : Map Language) (s : Host)
      → load_lang_filter raw false ≡ ok filter
      → load_filtered loaded filter ≡ ok languages
      → Permᴰ (order (targets languages)) (targets languages)
      → AllApart Apart (order (targets languages))
      → All (λ t. IsCached sha256 (view t s)) (order (targets languages))
      → (run_build_images sha256 no_cache o order loaded raw s).1 ≡ none
      → All
          (λ t. Built t (run_build_images sha256 no_cache o order loaded raw s).0)
          (targets languages)
  unfolding run_build_images
  run_build_images-fresh order loaded raw filter languages s parsed filtered perm apart cached
        ended =
      let same : build_filtered sha256 no_cache o order loaded s (load_lang_filter raw false)
          ≡ build_languages sha256 no_cache o order s (ok languages) =
        rw (parsed, filtered) refl in
      subst (λ (r : Host × Option CommandError). All (λ t. Built t r.0) (targets languages))
        (sym same)
        (ordered-Built order languages s perm apart cached
          (ap (λ (r : Host × Option CommandError). r.1) (sym same) ∙ ended))
