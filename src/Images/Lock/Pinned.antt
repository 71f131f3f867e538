-- ===== src/Images/Lock/Pinned.antt =====
-- cmd/runboxctl/cmd/images/genlock.go: the digests in the lock file that is written.
use runboxd.Base.{
  ◌≡◌, refl, sym, ap, ◌∙◌, Bool, true, false, Option, none, some, List, [], ◌∷◌, arith, All,
  if◌then◌else◌,
}
use runboxd.Base.Text.{Text, text_eq, text_eq_iff, cut, trim_space}
use runboxd.Base.Map.{Map, lookup, insert, lookup-insert}
use runboxd.ImageSpec.Types.{ImageSpec, Version}
use runboxd.Images.Generate.{Lockfile, digest_of}
use runboxd.Images.Lock.{
  Inspect, Refreshed, refresh, languages_of, set_digest, Progress, add, refresh_versions,
  refresh_all, gen_lock,
}

abbrev pub digest_at : Text → Text → Lockfile → Option Text
digest_at lang v lock = lookup v (languages_of (lookup lang lock))

abbrev or_else : Option Text → Option Text → Option Text
or_else (some d) o = some d
or_else none o = o

or_else_assoc : (a b c : Option Text) → or_else (or_else a b) c ≡ or_else a (or_else b c)
or_else_assoc (some d) b c = refl
or_else_assoc none b c = refl

or_else-none : (a : Option Text) → or_else a none ≡ a
or_else-none (some d) = refl
or_else-none none = refl

-- The digest that a version is to be pinned at, by its base image without an old digest, what the registry
-- answers for it, and its digest in the old lock file: the answer; or, where there is none and stale
-- digests are not dropped, the old digest.
abbrev pub pinned :
    (drop_stale : Bool) → (base_image : Text) → Option Text → (old : Text) → Option Text
pinned drop_stale [] answer old = none
pinned drop_stale (c ∷ image) (some output) old = some (trim_space output)
pinned true (c ∷ image) none old = none
pinned false (c ∷ image) none [] = none
pinned false (c ∷ image) none (o ∷ old) = some (o ∷ old)

abbrev pub pinned_version : Inspect → Bool → Lockfile → Text → Text → Version → Option Text
pinned_version inspect drop_stale curr l name version =
    let base_image = (cut version.base_image b'@').0 in
    pinned drop_stale base_image (inspect base_image) (digest_of curr l name)

module _ (inspect : Inspect) (drop_stale : Bool) (curr : Lockfile) (lang v : Text) where
  -- The digest that a refresh of these versions finds for `v`, and one of these languages for `lang`.
  pub found_in : Text → Map Version → Option Text
  found_in l [] = none
  found_in l ((name, version) ∷ versions) =
      or_else
        (if text_eq name v then pinned_version inspect drop_stale curr l name version else none)
        (found_in l versions)

  pub found_for : List ImageSpec → Option Text
  unfolding found_in
  found_for [] = none
  found_for (spec ∷ specs) =
      or_else (if text_eq spec.name lang then found_in spec.name spec.versions else none)
        (found_for specs)

  refresh-pinned :
      (l name : Text) (version : Version)
      → (refresh inspect drop_stale curr l name version).digest
        ≡ pinned_version inspect drop_stale curr l name version
  unfolding refresh
  refresh-pinned l name version = ground arith

  digest_at-set_digest :
      (l w d : Text) (lock : Lockfile)
      → digest_at lang v (set_digest l w d lock) ≡ (
          if text_eq l lang
          then (if text_eq w v then some d else digest_at lang v lock)
          else digest_at lang v lock)
  unfolding set_digest
  digest_at-set_digest l w d lock = ground (
    arith,
    lookup-insert l lang (insert w d (languages_of (lookup l lock))) lock,
    lookup-insert w v d (languages_of (lookup l lock)),
    text_eq_iff l lang,
  )

  after_add :
      (l w : Text) (digest : Option Text) (lock : Lockfile)
      → digest_at lang v (elim digest [ none ↦ lock | some d ↦ set_digest l w d lock ])
        ≡ or_else
            (if text_eq l lang then (if text_eq w v then digest else none) else none)
            (digest_at lang v lock)
  after_add l w none lock = ground arith
  after_add l w (some d) lock = digest_at-set_digest l w d lock ∙ ground arith

  digest_at-add :
      (l w : Text) (r : Refreshed) (p : Progress)
      → digest_at lang v (add l w r p).lock
        ≡ or_else
            (if text_eq l lang then (if text_eq w v then r.digest else none) else none)
            (digest_at lang v p.lock)
  unfolding add
  digest_at-add l w r p = after_add l w r.digest p.lock

  joined :
      (l w : Text) (d f o : Option Text)
      → or_else
          (if text_eq l lang then (if text_eq w v then d else none) else none)
          (or_else (if text_eq l lang then f else none) o)
        ≡ or_else (if text_eq l lang then or_else (if text_eq w v then d else none) f else none) o
  joined l w d f o = ground (arith, or_else_assoc (if text_eq w v then d else none) f o)

  digest_at-refresh_versions :
      (l : Text) (versions : Map Version) (p : Progress)
      → digest_at lang v (refresh_versions inspect drop_stale curr l versions p).lock
        ≡ or_else (if text_eq l lang then found_in l versions else none) (digest_at lang v p.lock)
  unfolding refresh_versions found_in
  digest_at-refresh_versions l [] p = ground arith
  digest_at-refresh_versions l ((name, version) ∷ versions) p =
      let r = refresh inspect drop_stale curr l name version in
      digest_at-add l name r (refresh_versions inspect drop_stale curr l versions p)
      ∙ ap
          (λ d.
            or_else (if text_eq l lang then (if text_eq name v then d else none) else none)
              (digest_at lang v (refresh_versions inspect drop_stale curr l versions p).lock))
          (refresh-pinned l name version)
      ∙ ap
          (or_else (
            if text_eq l lang
            then (if text_eq name v
                then pinned_version inspect drop_stale curr l name version
                else none)
            else none))
          (digest_at-refresh_versions l versions p)
      ∙ joined l name (pinned_version inspect drop_stale curr l name version) (found_in l versions)
          (digest_at lang v p.lock)

  digest_at-refresh_all :
      (specs : List ImageSpec) (p : Progress)
      → digest_at lang v (refresh_all inspect drop_stale curr specs p).lock
        ≡ or_else (found_for specs) (digest_at lang v p.lock)
  unfolding refresh_all found_for
  digest_at-refresh_all [] p = refl
  digest_at-refresh_all (spec ∷ specs) p =
      digest_at-refresh_versions spec.name spec.versions
        (refresh_all inspect drop_stale curr specs p)
      ∙ ap (or_else (if text_eq spec.name lang then found_in spec.name spec.versions else none))
          (digest_at-refresh_all specs p)
      ∙ sym (
          or_else_assoc (if text_eq spec.name lang then found_in spec.name spec.versions else none)
            (found_for specs) (digest_at lang v p.lock))

  -- The written lock file holds, for a version of a language, the digest that the refresh of this
  -- version found, among the specifications that were loaded (with --lang only those of the filter):
  -- the one inspected now or, where that failed and stale digests are not dropped, the one of the old
  -- lock file. Nothing else is carried over from the old lock file.
  pub gen_lock-digest :
      (specs : List ImageSpec)
      → digest_at lang v (gen_lock inspect drop_stale curr specs).0 ≡ found_for specs
  unfolding gen_lock found_for lookup
  gen_lock-digest specs =
      digest_at-refresh_all specs (record { lock = []; failures = [] })
      ∙ or_else-none (found_for specs)

  found_for-absent :
      (specs : List ImageSpec)
      → All (λ (spec : ImageSpec). text_eq spec.name lang ≡ false) specs
      → found_for specs ≡ none
  unfolding found_for
  found_for-absent [] all = refl
  found_for-absent (spec ∷ specs) (h, all) = ground (arith, h, found_for-absent specs all)

  -- A language that is not among the specifications loaded has no digest in the written lock file,
  -- whatever the old lock file holds for it and also where stale digests are to be kept.
  gen_lock-drops :
      (specs : List ImageSpec)
      → All (λ (spec : ImageSpec). text_eq spec.name lang ≡ false) specs
      → digest_at lang v (gen_lock inspect drop_stale curr specs).0 ≡ none
  gen_lock-drops specs all = gen_lock-digest specs ∙ found_for-absent specs all
