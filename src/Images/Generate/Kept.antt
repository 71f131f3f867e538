-- ===== src/Images/Generate/Kept.antt =====
-- cmd/runboxctl/cmd/images/genimages.go: what a run of `gen-images` leaves in the file of the registry.
use runboxd.Base.{◌≡◌, refl, false, none, some, Option, List, All, Bool-cases, inl, inr, arith}
use runboxd.Base.Text.{Text}
use runboxd.Base.Map.{Map}
use runboxd.Base.Result.{Result, ok, err, >>=-eq-ok}
use runboxd.ImageSpec.Types.{LangFilter}
use runboxd.ImageSpec.Load as S
use runboxd.Registry.Types.{Language}
use runboxd.Images.Validate.{load_lang_filter}
use runboxd.Images.Generate.{Lockfile, gen_entries}
use runboxd.Images.Generate.Merge.{version_at, touches, gen_entries-keeps}
use runboxd.Images.Generate.Command.{
  Outside, RegistryFile, holds, CommandError, or_error, bad_lockfile, not_generated, start_registry,
  lockfile_data, with_wrappers, gen_registry, write_registry, run_gen_images,
}

or_error-ok {ℓ} :
    {E : Type 0} {A : Type ℓ} (f : E → CommandError) (r : Result E A) (a : A)
    → or_error f r ≡ ok a
    → r ≡ ok a
or_error-ok f (ok b) a h = cc
or_error-ok f (err e) a h = absurd (cc)

pub write_registry-ok :
    (o : Outside) (file : RegistryFile) (r : Result CommandError (Map Language))
    → (write_registry o file r).1 ≡ none
    → (out : Map Language) × (r ≡ ok out) × ((write_registry o file r).0 ≡ holds out)
write_registry-ok o file (err e) h = absurd (cc)
write_registry-ok o file (ok languages) h = elim (Bool-cases o.registry_written) [
  | inl done ↦ (languages, refl, rw done refl)
  | inr undone ↦ absurd (ground arith)
]

module _ (o : Outside) (raw : List Text) (filter : Option LangFilter) (entries : List S.Entry)
    (languages : Map Language) where
  -- The registry that a run makes, by the entries that it has loaded.
  pub gen_registry-ok :
      (file : RegistryFile) (out : Map Language)
      → load_lang_filter raw false ≡ ok filter
      → S.load_filtered o.image_dir.read_dir o.image_dir.spec_file filter ≡ ok entries
      → start_registry filter file ≡ ok languages
      → gen_registry o raw file ≡ ok out
      → (lock : Option Lockfile) × (gen_entries o.creates lock languages
            (with_wrappers o.wrapper entries)
          ≡ ok out)
  unfolding gen_registry
  gen_registry-ok file out parsed loaded started made =
      let generated = λ (lock : Option Lockfile) (ls : Map Language).
        or_error not_generated (gen_entries o.creates lock ls (with_wrappers o.wrapper entries)) in
      let (lock, locked, rest) =
        >>=-eq-ok (or_error bad_lockfile (lockfile_data o.lockfile))
          (λ lock. generated lock languages) (rw (parsed, loaded, started, gen_registry) at made) in
      (lock, or_error-ok not_generated _ out rest)

module _ (o : Outside) (raw : List Text) (filter : LangFilter) (entries : List S.Entry)
    (languages : Map Language) where
  -- A run with a filter that returns no error writes a registry in which every version that none of the
  -- loaded specifications names is as it was in the registry before.
  pub run_gen_images-keeps :
      (lang v : Text)
      → load_lang_filter raw false ≡ ok (some filter)
      → S.load_filtered o.image_dir.read_dir o.image_dir.spec_file (some filter) ≡ ok entries
      → All (λ e. touches lang v e ≡ false) (with_wrappers o.wrapper entries)
      → (run_gen_images o raw (holds languages)).1 ≡ none
      → (out : Map Language) × ((run_gen_images o raw (holds languages)).0 ≡ holds out)
        × (version_at lang v out ≡ version_at lang v languages)
  unfolding run_gen_images start_registry
  run_gen_images-keeps lang v parsed loaded others ended =
      let (out, made, file) = write_registry-ok o (holds languages) _ ended in
      let (lock, generated) =
        gen_registry-ok o raw (some filter) entries languages (holds languages) out parsed loaded
          refl made in
      (
        out,
        file,
        gen_entries-keeps o.creates lock languages out (with_wrappers o.wrapper entries) lang v
            generated others,
      )
