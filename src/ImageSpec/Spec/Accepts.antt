-- ===== src/ImageSpec/Spec/Accepts.antt =====
-- internal/imagespec/imagespec.go: which specifications `validateSpec` accepts, and what
-- `FilterVersions` keeps.
use runboxd.Base.{
  ◌≡◌, refl, sym, ◌∙◌, ◌↔◌, ◌⊎◌, inl, inr, Bool, true, false, not, ◌&&◌, ◌||◌, none, some, List, [],
  ◌∷◌, ◌++◌, arith, if◌then◌else◌, first_error, first_error-none, none-first_error, All, Bool-cases,
  append_assoc, append-nil, Option-cases, not-false,
}
use runboxd.Base.Text.{Text, text, text_eq, text_eq_iff, is_empty, member}
use runboxd.Base.Map.{Map, lookup, insert, lookup-insert, keys}
use runboxd.ImageSpec.Types.{ImageSpec, Version}
use runboxd.ImageSpec.Spec.{
  no_items, validate_versions, spec_checks, validate_spec, filter_versions_from, filter_versions,
}

abbrev is_known {ℓ} : {A : Type ℓ} → Text → Map A → Bool
is_known u m = elim (lookup u m) [ none ↦ false | some v ↦ true ]

-- A version that can be built and run.
abbrev pub IsRunnable : Text → Text × Version → Type 0
IsRunnable kind (name, v) =
    (is_empty v.base_image ≡ false)
    × (no_items v.run_cmd ≡ false)
    × ((text_eq kind (text "compiled") && no_items v.build_cmd) ≡ false)

pub record IsWellFormed (spec : ImageSpec) : Type 0 where
  pub named : is_empty spec.name ≡ false
  pub known_type : (spec.kind ≡ text "interpreted") ⊎ (spec.kind ≡ text "compiled")
  pub has_filename : is_empty spec.filename ≡ false
  pub has_default : is_empty spec.default_version ≡ false
  pub runnable : All (IsRunnable spec.kind) spec.versions
  pub default_defined : member spec.default_version (keys spec.versions) ≡ true

validate_versions_iff :
    (spec : ImageSpec) (seen : Bool) (vs : Map Version)
    → (validate_versions spec seen vs ≡ none)
      ↔ (All (IsRunnable spec.kind) vs × ((seen || member spec.default_version (keys vs)) ≡ true))
unfolding validate_versions member keys
validate_versions_iff spec seen [] = ground arith
validate_versions_iff spec seen ((name, v) ∷ vs) =
    let ih =
      validate_versions_iff spec (if text_eq name spec.default_version then true else seen) vs in
    ground (arith, ih.0, ih.1)

type_test : Text → Bool
type_test kind = not (text_eq kind (text "interpreted")) && not (text_eq kind (text "compiled"))

type_test_iff :
    (kind : Text)
    → (type_test kind ≡ false) ↔ ((kind ≡ text "interpreted") ⊎ (kind ≡ text "compiled"))
unfolding type_test text_eq
type_test_iff kind = (
  λ h. elim (Bool-cases (text_eq kind (text "interpreted"))) [
    | inl e ↦ inl ((text_eq_iff kind (text "interpreted")).0 e)
    | inr e ↦ inr ((text_eq_iff kind (text "compiled")).0 (not-false _ (rw e at h)))
  ],
  λ h. elim h [ inl e ↦ rw e (refl) | inr e ↦ rw e (refl) ],
)

has_versions : (d : Text) (vs : Map Version) → member d (keys vs) ≡ true → no_items vs ≡ false
unfolding member keys
has_versions d [] h = cc
has_versions d (v ∷ vs) h = refl

both_none :
    (spec : ImageSpec)
    → (validate_spec spec ≡ none) ↔ (
        (first_error (spec_checks spec) ≡ none)
        × (validate_versions spec false spec.versions ≡ none))
unfolding validate_spec
both_none spec = elim (Option-cases (first_error (spec_checks spec))) [
  | inl e ↦ rw (e, validate_spec) (λ h. (refl, h), λ h. h.1)
  | inr (x, e) ↦ rw (e, validate_spec) (λ h. cc, λ h. cc)
]

-- A specification is accepted exactly when it is well formed: named, of one of the two types, with
-- a file name and a default version that is one of its versions, and with every version runnable.
-- (`exec_cmd`, which docs/authoring-languages.md calls required, is no field of a specification.)
pub validate_spec_iff : (spec : ImageSpec) → (validate_spec spec ≡ none) ↔ IsWellFormed spec
validate_spec_iff spec = (accepted, valid)
  where
    accepted : validate_spec spec ≡ none → IsWellFormed spec
    accepted h =
        let (checks, versions) = (both_none spec).0 h in
        let (n, r1) = first_error-none (spec_checks spec) checks in
        let (t, r2) = r1 in
        let (k, r3) = r2 in
        let (f, r4) = r3 in
        let (d, r5) = r4 in
        let (runnable, defined) = (validate_versions_iff spec false spec.versions).0 versions in
        record {
          named = n;
          known_type = (type_test_iff spec.kind).0 (unfold type_test in k);
          has_filename = f;
          has_default = d;
          runnable = runnable;
          default_defined = defined;
        }

    valid : IsWellFormed spec → validate_spec spec ≡ none
    valid w =
        let some_type : is_empty spec.kind ≡ false = ground (arith, w.known_type) in
        let known = (type_test_iff spec.kind).1 w.known_type in
        let some_version = has_versions spec.default_version spec.versions w.default_defined in
        (both_none spec).1 (
          none-first_error (spec_checks spec) (
            w.named,
            (
              some_type,
              (unfold type_test in known, (w.has_filename, (w.has_default, (some_version, tt)))),
            ),
          ),
          (validate_versions_iff spec false spec.versions).1 (w.runnable, w.default_defined),
        )

-- The requested versions that do not exist, in order.
abbrev pub absent {ℓ} : {A : Type ℓ} → Map A → List Text → List Text
absent versions [] = []
absent versions (v ∷ requested) = elim (lookup v versions) [
  | some ver ↦ absent versions requested
  | none ↦ v ∷ absent versions requested
]

filter_versions_from-missing {ℓ} :
    {A : Type ℓ} (versions kept : Map A) (missing requested : List Text)
    → (filter_versions_from versions kept missing requested).1
      ≡ missing ++ absent versions requested
unfolding filter_versions_from
filter_versions_from-missing versions kept missing [] = sym (append-nil missing)
filter_versions_from-missing versions kept missing (v ∷ requested) =
    elim (Option-cases (lookup v versions)) [
      | inl e ↦
          rw (e, filter_versions_from, absent)
            (filter_versions_from-missing versions kept (missing ++ v ∷ []) requested
              ∙ append_assoc missing (v ∷ []) (absent versions requested))
      | inr (ver, e) ↦
          rw (e, filter_versions_from, absent)
            (filter_versions_from-missing versions (insert v ver kept) missing requested)
    ]

filter_versions_from-kept {ℓ} :
    {A : Type ℓ} (versions kept : Map A) (missing requested : List Text) (u : Text)
    → lookup u (filter_versions_from versions kept missing requested).0
      ≡ (if member u requested && is_known u versions then lookup u versions else lookup u kept)
unfolding filter_versions_from member
filter_versions_from-kept versions kept missing [] u = refl
filter_versions_from-kept versions kept missing (v ∷ requested) u =
    elim (Option-cases (lookup v versions)) [
      | inl e ↦ ground (
        arith,
        text_eq_iff v u,
        filter_versions_from-kept versions kept (missing ++ v ∷ []) requested u,
      )
      | inr (ver, e) ↦ ground (
        arith,
        text_eq_iff v u,
        lookup-insert v u ver kept,
        filter_versions_from-kept versions (insert v ver kept) missing requested u,
      )
    ]

-- What `FilterVersions` returns: the requested versions that exist, each with its own value and no
-- other, and those that do not, in the order of the request.
pub filter_versions_lem {ℓ} :
    {A : Type ℓ} (versions : Map A) (requested : List Text)
    → ((filter_versions versions requested).1 ≡ absent versions requested)
      × ((u : Text)
          → lookup u (filter_versions versions requested).0
            ≡ (if member u requested then lookup u versions else none))
unfolding filter_versions lookup
filter_versions_lem versions requested = (
  filter_versions_from-missing versions [] [] requested,
  λ u. ground (arith, filter_versions_from-kept versions [] [] requested u),
)
