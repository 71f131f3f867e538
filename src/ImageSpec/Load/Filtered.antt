-- ===== src/ImageSpec/Load/Filtered.antt =====
-- internal/imagespec/imagespec.go: what `LoadFiltered` returns for a filter.
use runboxd.Base.{
  All, not, if_both, ◌≡◌, refl, sym, ap, ◌∙◌, subst, Bool, true, Option, none, some, List, [], ◌∷◌,
  if◌then◌else◌,
}
use runboxd.Base.Text.{Text, member}
use runboxd.Base.Map.{Map, lookup}
use runboxd.Base.Result.{Result, ok, err}
use runboxd.ImageSpec.Types.{ImageSpec, LangFilter, Version}
use runboxd.ImageSpec.Spec.{SpecError, validate_spec, filter_versions}
use runboxd.ImageSpec.Spec.Accepts.{IsWellFormed, validate_spec_iff, absent, filter_versions_lem}
use runboxd.ImageSpec.Load.{
  load_dirs, add_found, SpecFile, absent_file, unreadable_file, unparsable_file, parsed, LoadError,
  checked, SpecEnd, no_file, failed, loaded, load_image_spec, Entry, Loading, only_existing,
  requested_versions, add_filtered, add_requested, load_langs, joined, load_filtered,
}

abbrev pub asks_for : Option (List Text) → Text → Bool
asks_for none u = true
asks_for (some []) u = true
asks_for (some (v ∷ vs)) u = member u (v ∷ vs)

abbrev named_versions : Option (List Text) → List Text
named_versions none = []
named_versions (some vs) = vs

-- Exactly the versions that are asked for, and no version is asked for by its name that is not there.
abbrev pub IsRestricted {ℓ} : {A : Type ℓ} → Option (List Text) → Map A → Map A → Type ℓ
IsRestricted request versions kept =
    (absent versions (named_versions request) ≡ [])
    × ((u : Text) → lookup u kept ≡ (if asks_for request u then lookup u versions else none))

only_existing-ok {ℓ} :
    {A : Type ℓ} (lang : Text) (versions vs : Map A) (found : Map A × List Text)
    → only_existing lang versions found ≡ ok vs
    → (found.1 ≡ []) × (found.0 ≡ vs)
only_existing-ok lang versions vs (kept, []) h = (refl, cc)
only_existing-ok lang versions vs (kept, m ∷ missing) h = absurd (cc)

pub requested_versions-IsRestricted {ℓ} :
    {A : Type ℓ} (lang : Text) (versions vs : Map A) (request : Option (List Text))
    → requested_versions lang versions request ≡ ok vs
    → IsRestricted request versions vs
unfolding requested_versions
requested_versions-IsRestricted lang versions vs none h = (refl, λ u. ap (lookup u) cc)
requested_versions-IsRestricted lang versions vs (some []) h = (refl, λ u. ap (lookup u) cc)
requested_versions-IsRestricted lang versions vs (some (v ∷ request)) h =
    let (missing, kept) = filter_versions_lem versions (v ∷ request) in
    let (none_missing, same) =
      only_existing-ok lang versions vs (filter_versions versions (v ∷ request)) h in
    (sym missing ∙ none_missing, λ u. ap (lookup u) (sym same) ∙ kept u)

checked-loaded :
    (dir : Text) (spec out : ImageSpec) (e : Option SpecError)
    → checked dir spec e ≡ loaded out
    → (e ≡ none) × (spec ≡ out)
checked-loaded dir spec out none h = (refl, cc)
checked-loaded dir spec out (some e) h = absurd (cc)

pub load_image_spec-loaded :
    (dir : Text) (file : SpecFile) (spec : ImageSpec)
    → load_image_spec dir file ≡ loaded spec
    → (file ≡ parsed spec) × IsWellFormed spec
unfolding load_image_spec
load_image_spec-loaded dir absent_file spec h = absurd (cc)
load_image_spec-loaded dir unreadable_file spec h = absurd (cc)
load_image_spec-loaded dir unparsable_file spec h = absurd (cc)
load_image_spec-loaded dir (parsed s) spec h =
    let (valid, same) = checked-loaded dir s spec (validate_spec s) h in
    (ap parsed same, subst IsWellFormed same ((validate_spec_iff s).0 valid))

-- The entries of a filter, in its order: each from a well-formed specification in the language's
-- directory, with the versions that are asked for.
pub data IsSelection (read : Text → SpecFile) : LangFilter → List Entry → Type 0 where
  nothing : IsSelection read [] []
  select :
      {filter : LangFilter} {entries : List Entry}
      → (lang : Text) (versions : Option (List Text)) (spec : ImageSpec) (kept : Map Version)
      → read lang ≡ parsed spec
      → IsWellFormed spec
      → IsRestricted versions spec.versions kept
      → IsSelection read filter entries
      → IsSelection read
          ((lang, versions) ∷ filter)
          (record { dir = lang; spec = record spec { versions = kept } } ∷ entries)

add_filtered-ok :
    (lang : Text) (spec : ImageSpec) (r : Result LoadError (Map Version)) (l : Loading)
    → (add_filtered lang spec r l).errs ≡ []
    → (kept : Map Version) × (r ≡ ok kept)
      × (l.errs ≡ [])
      × ((add_filtered lang spec r l).entries
          ≡ record { dir = lang; spec = record spec { versions = kept } } ∷ l.entries)
add_filtered-ok lang spec (err e) l h = absurd (cc)
add_filtered-ok lang spec (ok kept) l h = (kept, refl, h, refl)

joined_parts :
    (es : List LoadError) (l : Loading) (entries : List Entry)
    → (elim es [ [] ↦ ok l.entries | e ∷ rest ↦ err (e ∷ rest) ]) ≡ ok entries
    → (es ≡ []) × (l.entries ≡ entries)
joined_parts [] l entries h = (refl, cc)
joined_parts (e ∷ es) l entries h = absurd (cc)

pub joined-ok :
    (l : Loading) (entries : List Entry)
    → joined l ≡ ok entries
    → (l.errs ≡ []) × (l.entries ≡ entries)
joined-ok l entries h = joined_parts l.errs l entries h

module _ (read : Text → SpecFile) where
  add_requested-IsSelection :
      (lang : Text) (versions : Option (List Text)) (end : SpecEnd) (l : Loading)
      (filter : LangFilter)
      → load_image_spec lang (read lang) ≡ end
      → (l.errs ≡ [] → IsSelection read filter l.entries)
      → (add_requested lang versions end l).errs ≡ []
      → IsSelection read ((lang, versions) ∷ filter) (add_requested lang versions end l).entries
  add_requested-IsSelection lang versions no_file l filter read_end rest h = absurd (cc)
  add_requested-IsSelection lang versions (failed e) l filter read_end rest h = absurd (cc)
  add_requested-IsSelection lang versions (loaded spec) l filter read_end rest h =
      let (kept, selected, no_errs, entries) =
        add_filtered-ok lang spec (requested_versions lang spec.versions versions) l h in
      let (file, valid) = load_image_spec-loaded lang (read lang) spec read_end in
      subst (IsSelection read ((lang, versions) ∷ filter)) (sym entries) (
        select lang versions spec kept file valid
          (requested_versions-IsRestricted lang spec.versions kept versions selected)
          (rest no_errs))

  load_langs-IsSelection :
      (filter : LangFilter)
      → (load_langs read filter).errs ≡ []
      → IsSelection read filter (load_langs read filter).entries
  unfolding load_langs
  load_langs-IsSelection [] h = nothing
  load_langs-IsSelection ((lang, versions) ∷ filter) h =
      add_requested-IsSelection lang versions (load_image_spec lang (read lang))
        (load_langs read filter) filter refl (load_langs-IsSelection filter) h

  -- What `LoadFiltered` returns for a filter, where it returns no error: one entry for each language of
  -- the filter, each from a specification in the language's directory that is well-formed, with exactly
  -- the versions that the filter asks for, all of which the specification has.
  pub load_filtered-IsSelection :
      (read_dir : Option (Map Bool)) (filter : LangFilter) (entries : List Entry)
      → load_filtered read_dir read (some filter) ≡ ok entries
      → IsSelection read filter entries
  unfolding load_filtered
  load_filtered-IsSelection read_dir filter entries h =
      let (no_errs, same) = joined-ok (load_langs read filter) entries h in
      subst (IsSelection read filter) same (load_langs-IsSelection filter no_errs)

-- The entry's specification, but for its versions, is in its directory and well-formed there.
pub record IsWellFormedEntry (read : Text → SpecFile) (e : Entry) : Type 0 where
  pub spec : ImageSpec
  pub in_directory : read e.dir ≡ parsed spec
  pub well_formed : IsWellFormed spec
  pub same_spec : e.spec ≡ record spec { versions = e.spec.versions }

IsSelection-IsWellFormedEntry :
    (read : Text → SpecFile) (filter : LangFilter) (entries : List Entry)
    → IsSelection read filter entries
    → All (IsWellFormedEntry read) entries
IsSelection-IsWellFormedEntry read _ _ nothing = tt
IsSelection-IsWellFormedEntry read _ _
      (select {filter} {entries} lang versions spec kept file valid restricted rest) =
    (
      record { spec = spec; in_directory = file; well_formed = valid; same_spec = refl },
      IsSelection-IsWellFormedEntry read filter entries rest,
    )

add_found-IsWellFormedEntry :
    (read : Text → SpecFile) (dir : Text) (end : SpecEnd) (l : Loading)
    → load_image_spec dir (read dir) ≡ end
    → All (IsWellFormedEntry read) l.entries
    → All (IsWellFormedEntry read) (add_found dir end l).entries
add_found-IsWellFormedEntry read dir no_file l read_end all = all
add_found-IsWellFormedEntry read dir (failed e) l read_end all = all
add_found-IsWellFormedEntry read dir (loaded spec) l read_end all =
    let (file, valid) = load_image_spec-loaded dir (read dir) spec read_end in
    (record { spec = spec; in_directory = file; well_formed = valid; same_spec = refl }, all)

load_dirs-IsWellFormedEntry :
    (read : Text → SpecFile) (files : Map Bool)
    → All (IsWellFormedEntry read) (load_dirs read files).entries
unfolding load_dirs
load_dirs-IsWellFormedEntry read [] = tt
load_dirs-IsWellFormedEntry read ((name, is_dir) ∷ files) =
    let rest = load_dirs-IsWellFormedEntry read files in
    if_both (λ (l : Loading). All (IsWellFormedEntry read) l.entries) (not is_dir)
      (load_dirs read files)
      (add_found name (load_image_spec name (read name)) (load_dirs read files)) (λ file. rest)
      (λ directory.
        add_found-IsWellFormedEntry read name (load_image_spec name (read name))
          (load_dirs read files) refl rest)

pub load_filtered-IsWellFormedEntry :
    (read : Text → SpecFile) (read_dir : Option (Map Bool)) (filter : Option LangFilter)
    (entries : List Entry)
    → load_filtered read_dir read filter ≡ ok entries
    → All (IsWellFormedEntry read) entries
unfolding load_filtered
load_filtered-IsWellFormedEntry read read_dir (some filter) entries h =
    IsSelection-IsWellFormedEntry read filter entries
      (load_filtered-IsSelection read read_dir filter entries h)
load_filtered-IsWellFormedEntry read none none entries h = absurd (cc)
load_filtered-IsWellFormedEntry read (some files) none entries h =
    let (no_errs, same) = joined-ok (load_dirs read files) entries h in
    subst (All (IsWellFormedEntry read)) same (load_dirs-IsWellFormedEntry read files)
