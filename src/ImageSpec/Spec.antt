-- ===== src/ImageSpec/Spec.antt =====
-- internal/imagespec/imagespec.go: `validateSpec` and `FilterVersions`.
pub mod Accepts
use runboxd.Base.{
  ◌≡◌, refl, Bool, true, false, not, ◌&&◌, ◌||◌, Option, none, some, List, [], ◌∷◌, ◌++◌, arith,
  if◌then◌else◌, first_error,
}
use runboxd.Base.Text.{Text, text, text_eq, is_empty}
use runboxd.Base.Map.{Map, lookup, insert, keys}
use runboxd.Base.Result.{Result, ok, err}
use runboxd.ImageSpec.Types.{ImageSpec, Version, LangFilter}

pub data SpecError : Type 0 where
  no_name no_type bad_type no_filename no_default_version no_versions : SpecError
  no_base_image : Text → SpecError
  no_build_cmd : Text → SpecError
  no_run_cmd : Text → SpecError
  default_not_defined : Text → SpecError

abbrev pub no_items {ℓ} : {A : Type ℓ} → List A → Bool
no_items [] = true
no_items (x ∷ xs) = false

-- One round of the loop over the versions.
abbrev pub version_checks : Text → Text × Version → List (Bool × SpecError)
version_checks kind (name, v) =
    (is_empty v.base_image, no_base_image name)
    ∷ (text_eq kind (text "compiled") && no_items v.build_cmd, no_build_cmd name)
    ∷ (no_items v.run_cmd, no_run_cmd name)
    ∷ []

-- The loop; `seen` is `defaultVersionInVersions`.
unfoldable pub validate_versions : ImageSpec → Bool → Map Version → Option SpecError
validate_versions spec seen [] =
    if not seen then some (default_not_defined spec.default_version) else none
validate_versions spec seen ((name, v) ∷ versions) =
    let rest =
      validate_versions spec (if text_eq name spec.default_version then true else seen) versions in
    elim (first_error (version_checks spec.kind (name, v))) [ some e ↦ some e | none ↦ rest ]

abbrev pub spec_checks : ImageSpec → List (Bool × SpecError)
spec_checks spec =
    (is_empty spec.name, no_name)
    ∷ (is_empty spec.kind, no_type)
    ∷ (
      not (text_eq spec.kind (text "interpreted")) && not (text_eq spec.kind (text "compiled")),
      bad_type,
    )
    ∷ (is_empty spec.filename, no_filename)
    ∷ (is_empty spec.default_version, no_default_version)
    ∷ (no_items spec.versions, no_versions)
    ∷ []

unfoldable pub validate_spec : ImageSpec → Option SpecError
validate_spec spec = elim (first_error (spec_checks spec)) [
  | some e ↦ some e
  | none ↦ validate_versions spec false spec.versions
]

-- The loop of `FilterVersions` over what was requested.
unfoldable pub filter_versions_from {ℓ} :
    {V : Type ℓ} → Map V → Map V → List Text → List Text → Map V × List Text
filter_versions_from versions kept missing [] = (kept, missing)
filter_versions_from versions kept missing (v ∷ requested) = elim (lookup v versions) [
  | some ver ↦ filter_versions_from versions (insert v ver kept) missing requested
  | none ↦ filter_versions_from versions kept (missing ++ v ∷ []) requested
]

unfoldable pub filter_versions {ℓ} : {V : Type ℓ} → Map V → List Text → Map V × List Text
filter_versions versions requested = filter_versions_from versions [] [] requested
