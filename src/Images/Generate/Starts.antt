-- ===== src/Images/Generate/Starts.antt =====
-- cmd/runboxctl/cmd/images/genimages.go: whether a backend can start with the registry that is written.
use runboxd.Base.{◌≡◌, refl, ap, ◌∙◌, Bool, true, Option, none, some, arith}
use runboxd.Base.Text.{Text, text_eq_refl}
use runboxd.Base.Map.{Map, lookup, lookup-keys}
use runboxd.Base.Result.{ok, err}
use runboxd.Registry.Types.{Language}
use runboxd.Registry.Types as R
use runboxd.Sandbox.Entries.{
  default_version_not_found, or_missing, default_of, docker_entry, nsjail_entry,
}
use runboxd.Sandbox.Entries.{LangEntry}
use runboxd.Sandbox.Entries.Starts.{docker_entry-starts}
use runboxd.Sandbox.Limits.{resolve_lang_limits, validate_lang_limits}
use runboxd.ImageSpec.Spec.{validate_spec}
use runboxd.ImageSpec.Spec.Accepts.{validate_spec_iff}
use runboxd.Images.Generate.{Lockfile, Entry, Creates, registry_version, new_language, gen_entry}
use runboxd.Images.Generate.Merge.{IsMerged, gen_entry_lem, version_at}

-- An entry without its default version, as a filter on versions leaves it, makes a registry that no
-- backend starts with, unless the registry has that version already.
pub gen_entry-no_default :
    (creates : Creates) (lock : Option Lockfile) (languages out : Map Language) (entry : Entry)
    (wrapper : Text) (available : R.Version → Bool)
    → entry.wrapper ≡ some wrapper
    → gen_entry creates lock languages entry ≡ ok out
    → lookup entry.spec.default_version entry.spec.versions ≡ none
    → version_at entry.spec.name entry.spec.default_version languages ≡ none
    → (l : Language) × (lookup entry.spec.name out ≡ some l)
      × (docker_entry available l ≡ err (default_version_not_found entry.spec.name))
      × (nsjail_entry available l ≡ err (default_version_not_found entry.spec.name))
unfolding docker_entry nsjail_entry new_language
gen_entry-no_default creates lock languages out entry wrapper available readable h absent before =
    let spec = entry.spec in
    let (l, merged, at) = gen_entry_lem creates lock languages out entry wrapper readable h in
    let missing : lookup spec.default_version l.versions ≡ none =
      merged.kept spec.default_version absent ∙ before in
    let no_default : default_of l ≡ err (default_version_not_found spec.name) =
      ap default_of merged.renewed ∙ ap (or_missing spec.name) missing in
    let there : lookup spec.name out ≡ some l =
      ground (arith, at spec.name, text_eq_refl spec.name) in
    (l, there, rw (no_default) refl, rw (no_default) refl)

-- A well-formed specification whose wrapper can be read makes a language of the registry that has each
-- version of the specification as it says, and any other version as it was there before; and the Docker
-- backend can set this language up, given that its limits are valid and the images of all versions are
-- available.
pub gen_entry-starts :
    (creates : Creates) (lock : Option Lockfile) (languages out : Map Language) (entry : Entry)
    (wrapper : Text) (available : R.Version → Bool)
    → entry.wrapper ≡ some wrapper
    → validate_spec entry.spec ≡ none
    → validate_lang_limits (resolve_lang_limits entry.spec.limits) ≡ none
    → ((v : R.Version) → available v ≡ true)
    → gen_entry creates lock languages entry ≡ ok out
    → (l : Language) × (e : LangEntry) × IsMerged entry.spec (lookup entry.spec.name languages) l
      × (lookup entry.spec.name out ≡ some l)
      × (docker_entry available l ≡ ok e)
unfolding new_language
gen_entry-starts creates lock languages out entry wrapper available readable valid limits all h =
    let spec = entry.spec in
    let (l, merged, at) = gen_entry_lem creates lock languages out entry wrapper readable h in
    let well = (validate_spec_iff spec).0 valid in
    let there : lookup spec.name out ≡ some l =
      ground (arith, at spec.name, text_eq_refl spec.name) in
    let (version, named) = lookup-keys spec.default_version spec.versions well.default_defined in
    let default : default_of l ≡ ok (registry_version spec.name spec.default_version version) =
      ap default_of merged.renewed
      ∙ ap (or_missing spec.name) (merged.made spec.default_version version named) in
    let in_bounds : validate_lang_limits (resolve_lang_limits l.limits) ≡ none =
      ap (λ (k : Language). validate_lang_limits (resolve_lang_limits k.limits)) merged.renewed
      ∙ limits in
    let (e, entered) =
      docker_entry-starts available l (registry_version spec.name spec.default_version version)
        default in_bounds all in
    (l, e, merged, there, entered)
