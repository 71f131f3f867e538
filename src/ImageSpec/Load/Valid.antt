-- ===== src/ImageSpec/Load/Valid.antt =====
-- internal/imagespec/imagespec.go: what `LoadFiltered` returns without a filter.
use runboxd.Base.{◌≡◌, refl, subst, Bool, not, Option, none, some, List, [], ◌∷◌, All, if_both}
use runboxd.Base.Text.{Text}
use runboxd.Base.Map.{Map}
use runboxd.Base.Result.{ok}
use runboxd.ImageSpec.Spec.{validate_spec}
use runboxd.ImageSpec.Spec.Accepts.{validate_spec_iff}
use runboxd.ImageSpec.Load.{
  SpecFile, SpecEnd, no_file, failed, loaded, Loading, add_found, load_image_spec, load_dirs,
}
use runboxd.ImageSpec.Load as S
use runboxd.ImageSpec.Load.Filtered.{load_image_spec-loaded, joined-ok}

add_found-valid :
    (read : Text → SpecFile) (dir : Text) (end : SpecEnd) (l : Loading)
    → load_image_spec dir (read dir) ≡ end
    → All (λ (e : S.Entry). validate_spec e.spec ≡ none) l.entries
    → All (λ (e : S.Entry). validate_spec e.spec ≡ none) (add_found dir end l).entries
add_found-valid read dir no_file l read_end all = all
add_found-valid read dir (failed e) l read_end all = all
add_found-valid read dir (loaded spec) l read_end all =
    ((validate_spec_iff spec).1 (load_image_spec-loaded dir (read dir) spec read_end).1, all)

load_dirs-valid :
    (read : Text → SpecFile) (files : Map Bool)
    → All (λ (e : S.Entry). validate_spec e.spec ≡ none) (load_dirs read files).entries
unfolding load_dirs
load_dirs-valid read [] = tt
load_dirs-valid read ((name, is_dir) ∷ files) =
    let rest = load_dirs-valid read files in
    if_both (λ (l : Loading). All (λ (e : S.Entry). validate_spec e.spec ≡ none) l.entries)
      (not is_dir) (load_dirs read files)
      (add_found name (load_image_spec name (read name)) (load_dirs read files)) (λ file. rest)
      (λ directory.
        add_found-valid read name (load_image_spec name (read name)) (load_dirs read files) refl
          rest)

-- Without a filter the specifications that are loaded are well formed as they are.
pub load_filtered-valid :
    (read : Text → SpecFile) (read_dir : Option (Map Bool)) (entries : List S.Entry)
    → S.load_filtered read_dir read none ≡ ok entries
    → All (λ e. validate_spec e.spec ≡ none) entries
unfolding S.load_filtered
load_filtered-valid read none entries h = absurd (cc)
load_filtered-valid read (some files) entries h =
    let (no_errs, same) = joined-ok (load_dirs read files) entries h in
    subst (All (λ (e : S.Entry). validate_spec e.spec ≡ none)) same (load_dirs-valid read files)
