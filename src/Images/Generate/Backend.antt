-- ===== src/Images/Generate/Backend.antt =====
-- cmd/runboxctl/cmd/images/genimages.go and internal/sandbox/docker.go: the Docker backend starts with
-- the registry that `gen-images` writes.
use runboxd.Base.{
  ◌≡◌, refl, sym, ap, subst, ◌∙◌, Bool, true, false, Option, none, some, List, [], ◌∷◌, All, arith,
  inl, inr, Option-cases, if◌then◌else◌,
}
use runboxd.Base.Text.{Text, text_eq, text_eq_refl}
use runboxd.Base.Map.{Map, lookup, insert, lookup-insert}
use runboxd.Base.Result.{ok, >>=-eq-ok}
use runboxd.ImageSpec.Types.{ImageSpec}
use runboxd.ImageSpec.Spec.{validate_spec}
use runboxd.ImageSpec.Load.{
  SpecFile, SpecEnd, no_file, failed, loaded, Loading, add_found, load_image_spec, load_dirs,
}
use runboxd.ImageSpec.Load as S
use runboxd.ImageSpec.Load.Valid.{load_filtered-valid}
use runboxd.Registry.Types.{Language}
use runboxd.Registry.Types as R
use runboxd.Sandbox.Limits.{resolve_lang_limits, validate_lang_limits}
use runboxd.Sandbox.Entries.{LangEntry, docker_entry, make_entries}
use runboxd.Images.Generate.{
  Lockfile, Entry, Creates, new_language, gen_entry, gen_entries, gen_version, gen_versions,
  untouched_versions, versions_of,
}
use runboxd.Images.Validate.{load_lang_filter}
use runboxd.Config.{docker}
use runboxd.Sandbox.Cgroup.{CgroupState}
use runboxd.Sandbox.Factory.{
  Load, DockerHost, NsjailHost, DockerSandbox, on_docker, by_value, image_available, new,
  new_docker_sandbox,
}
use runboxd.Images.Generate.Kept.{write_registry-ok, gen_registry-ok}
use runboxd.Images.Generate.Starts.{gen_entry-starts}
use runboxd.Images.Generate.Command.{
  Outside, RegistryFile, holds, start_registry, run_gen_images, with_wrappers,
}

-- The Docker backend can set the language up.
abbrev pub Startable : (R.Version → Bool) → Text × Language → Type 0
Startable available k = (e : LangEntry) × (docker_entry available k.1 ≡ ok e)

All-insert {ℓ} :
    {A : Type 0} (P : Text × A → Type ℓ) (k : Text) (a : A) (m : Map A)
    → P (k, a)
    → All P m
    → All P (insert k a m)
unfolding insert
All-insert P k a [] here all = (here, tt)
All-insert P k a ((j, b) ∷ m) here (p, all) =
    elim (text_eq j k) as (λ t. All P (if t then (k, a) ∷ m else (j, b) ∷ insert k a m)) [
      | true ↦ (here, all)
      | false ↦ (p, All-insert P k a m here all)
    ]

make_entries-starts :
    (available : R.Version → Bool) (specs : Map LangEntry) (languages : Map Language)
    → All (Startable available) languages
    → (out : Map LangEntry) × (make_entries (docker_entry available) specs languages ≡ ok out)
unfolding make_entries
make_entries-starts available specs [] all = (specs, refl)
make_entries-starts available specs ((key, l) ∷ languages) ((e, entered), all) =
    let (out, made) = make_entries-starts available (insert l.name e specs) languages all in
    (out, rw entered made)

gen_entry-unreadable :
    (creates : Creates) (lock : Option Lockfile) (languages out : Map Language) (entry : Entry)
    → entry.wrapper ≡ none
    → gen_entry creates lock languages entry ≡ ok out
    → languages ≡ out
unfolding gen_entry
gen_entry-unreadable creates lock languages out entry unreadable h = ground arith

gen_entry-insert :
    (creates : Creates) (lock : Option Lockfile) (languages out : Map Language) (entry : Entry)
    (wrapper : Text)
    → entry.wrapper ≡ some wrapper
    → gen_entry creates lock languages entry ≡ ok out
    → (l : Language) × (insert entry.spec.name l languages ≡ out)
unfolding gen_entry
gen_entry-insert creates lock languages out entry wrapper readable h =
    let kept =
      untouched_versions entry.spec.versions (versions_of (lookup entry.spec.name languages)) in
    let (versions, generated, rest) =
      >>=-eq-ok (gen_versions (gen_version creates lock entry.spec) entry.spec.versions kept)
        (λ versions. ok (insert entry.spec.name (new_language entry.spec versions) languages))
        (rw (readable, gen_entry) at h) in
    (new_language entry.spec versions, ground arith)

-- An entry that is well formed, with limits that a backend accepts.
abbrev pub Valid : ImageSpec → Type 0
Valid spec =
    (validate_spec spec ≡ none) × (validate_lang_limits (resolve_lang_limits spec.limits) ≡ none)

some-same {ℓ} : {A : Type ℓ} {a b : A} → some a ≡ some b → a ≡ b
some-same {a = a} h = ap (λ o. elim o [ none ↦ a | some x ↦ x ]) h

module _ (creates : Creates) (lock : Option Lockfile) (available : R.Version → Bool)
    (all_available : (v : R.Version) → available v ≡ true) where
  gen_entry-Startable :
      (languages out : Map Language) (entry : Entry)
      → Valid entry.spec
      → gen_entry creates lock languages entry ≡ ok out
      → All (Startable available) languages
      → All (Startable available) out
  gen_entry-Startable languages out entry (valid, limits) h all =
      elim (Option-cases entry.wrapper) [
        | inl unreadable ↦
            subst (All (Startable available))
              (gen_entry-unreadable creates lock languages out entry unreadable h) all
        | inr (wrapper, readable) ↦
            let (l, e, merged, there, entered) =
              gen_entry-starts creates lock languages out entry wrapper available readable valid
                limits all_available h in
            let (x, inserted) =
              gen_entry-insert creates lock languages out entry wrapper readable h in
            let stored : lookup entry.spec.name out ≡ some x =
              ap (lookup entry.spec.name) (sym inserted)
              ∙ lookup-insert entry.spec.name entry.spec.name x languages
              ∙ rw (text_eq_refl entry.spec.name) refl in
            let same : l ≡ x = some-same (sym there ∙ stored) in
            subst (All (Startable available)) inserted (
              All-insert (Startable available) entry.spec.name x languages
                (e, (ap (docker_entry available) (sym same) ∙ entered)) all)
      ]

  gen_entries-Startable :
      (languages out : Map Language) (entries : List Entry)
      → All (λ e. Valid e.spec) entries
      → gen_entries creates lock languages entries ≡ ok out
      → All (Startable available) languages
      → All (Startable available) out
  unfolding gen_entries
  gen_entries-Startable languages out [] valid h all =
      let same : languages ≡ out = cc in subst (All (Startable available)) same all
  gen_entries-Startable languages out (entry ∷ entries) (here, valid) h all =
      let (mid, first, rest) =
        >>=-eq-ok (gen_entry creates lock languages entry) (λ m. gen_entries creates lock m entries)
          h in
      gen_entries-Startable mid out entries valid rest
        (gen_entry-Startable languages mid entry here first all)

entries-Valid :
    (wrapper : Text → Option Text) (entries : List S.Entry)
    → All (λ e. validate_spec e.spec ≡ none) entries
    → All (λ e. validate_lang_limits (resolve_lang_limits e.spec.limits) ≡ none) entries
    → All (λ e. Valid e.spec) (with_wrappers wrapper entries)
entries-Valid wrapper [] valid limits = tt
entries-Valid wrapper (e ∷ es) (valid, vs) (limits, ls) =
    ((valid, limits), entries-Valid wrapper es vs ls)

no_flags : load_lang_filter [] false ≡ ok none
unfolding load_lang_filter
no_flags = refl

module _ (o : Outside) (file : RegistryFile) (entries : List S.Entry) (load : Load)
    (dh : DockerHost) (nh : NsjailHost) (cache : Option CgroupState) (path : Text) where
  -- When `gen-images` without a filter returns no error, the Docker backend starts with the registry
  -- that it has written (which `load` reads at `path`), given that the limits of every loaded
  -- specification are valid, the Docker client can be made and the images of all versions are available.
  pub run_gen_images-starts :
      S.load_filtered o.image_dir.read_dir o.image_dir.spec_file none ≡ ok entries
      → All (λ e. validate_lang_limits (resolve_lang_limits e.spec.limits) ≡ none) entries
      → (run_gen_images o [] file).1 ≡ none
      → ((out : Map Language) → (run_gen_images o [] file).0 ≡ holds out → load path ≡ some out)
      → dh.client_made ≡ true
      → ((v : R.Version) → image_available dh v ≡ true)
      → (sb : DockerSandbox) × ((new load dh nh cache (by_value (docker path))).result
          ≡ ok (on_docker sb))
  unfolding run_gen_images new new_docker_sandbox start_registry
  run_gen_images-starts loads limits ended reads client available =
      let (out, made, written) = write_registry-ok o file _ ended in
      let (lock, generated) =
        gen_registry-ok o [] none entries [] file out no_flags loads refl made in
      let valid = load_filtered-valid o.image_dir.spec_file o.image_dir.read_dir entries loads in
      let startable =
        gen_entries-Startable o.creates lock (image_available dh) available [] out
          (with_wrappers o.wrapper entries) (entries-Valid o.wrapper entries valid limits) generated
          tt in
      let (specs, started) = make_entries-starts (image_available dh) [] out startable in
      (record { specs = specs }, rw (client, reads out written, started) refl)
