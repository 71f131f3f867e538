-- ===== src/Registry/Filter/Kept.antt =====
-- internal/registry/registry.go: which languages and versions `Filter` keeps.
use runboxd.Base.{
  ◌≡◌, refl, sym, ap, ◌∙◌, subst, true, Option, none, some, List, [], ◌∷◌, ◌++◌, inl, inr, All,
  if◌then◌else◌, if_both, Bool-cases,
}
use runboxd.Base.Text.{Text, text_eq, text_eq_iff, member}
use runboxd.Base.Map.{Map, lookup, insert, lookup-insert, keys}
use runboxd.Base.Result.{Result, ok, err}
use runboxd.ImageSpec.Types.{LangFilter}
use runboxd.ImageSpec.Load.{LoadError, unknown_language, requested_versions}
use runboxd.ImageSpec.Load.Filtered.{IsRestricted, requested_versions-IsRestricted}
use runboxd.Registry.Types.{Language, Version}
use runboxd.Registry.Filter.{
  Filtering, with_versions, filter_language, filter_languages, unknown_languages, new_registry,
  filter_registry,
}

-- What the filtered registry has under a name, by what the registry has: nothing where the filter does
-- not name it, and otherwise the language with the versions asked for.
pub data IsKept (request : Option (Option (List Text)))
    : Option Language → Option Language → Type 0 where
  missing : IsKept request none none
  dropped : (lang : Language) → request ≡ none → IsKept request (some lang) none
  kept :
      (lang : Language) (versions : Option (List Text)) (vs : Map Version)
      → request ≡ some versions
      → IsRestricted versions lang.versions vs
      → IsKept request (some lang) (some (record lang { versions = vs }))

not_requested :
    (request : Option (Option (List Text))) (source out : Option Language)
    → request ≡ none
    → IsKept request source out
    → out ≡ none
not_requested request _ _ e missing = refl
not_requested request _ _ e (dropped lang n) = refl
not_requested request _ _ e (kept lang versions vs r k) = absurd (cc)

append-nil-both : {A : Type 0} (xs ys : List A) → xs ++ ys ≡ [] → (xs ≡ []) × (ys ≡ [])
append-nil-both [] ys h = (refl, h)
append-nil-both (x ∷ xs) ys h = absurd (cc)

unknown_languages-none :
    (languages : Map Language) (filter : LangFilter)
    → unknown_languages languages filter ≡ []
    → All (λ (name : Text). member name (keys languages) ≡ true) (keys filter)
unfolding unknown_languages keys
unknown_languages-none languages [] h = tt
unknown_languages-none languages ((name, versions) ∷ filter) h =
    if_both
      (λ es. es ≡ [] → All (λ (n : Text). member n (keys languages) ≡ true) (name ∷ keys filter))
      (member name (keys languages)) (unknown_languages languages filter)
      (unknown_language name ∷ unknown_languages languages filter)
      (λ seen none_left. (seen, unknown_languages-none languages filter none_left))
      (λ unseen none_left. absurd (cc)) h

with_versions-ok :
    (name : Text) (lang : Language) (r : Result LoadError (Map Version)) (f : Filtering)
    → (with_versions name lang r f).errs ≡ []
    → (vs : Map Version) × (r ≡ ok vs)
      × (f.errs ≡ [])
      × ((with_versions name lang r f).new_languages
          ≡ insert name (record lang { versions = vs }) f.new_languages)
with_versions-ok name lang (err e) f h = absurd (cc)
with_versions-ok name lang (ok vs) f h = (vs, refl, h, refl)

module _ (filter : LangFilter) where
  filter_language-IsKept :
      (request : Option (Option (List Text))) (name : Text) (lang : Language) (f : Filtering)
      (n : Text) (source : Option Language)
      → lookup name filter ≡ request
      → (f.errs ≡ [] → IsKept (lookup n filter) source (lookup n f.new_languages))
      → (filter_language request name lang f).errs ≡ []
      → IsKept
          (lookup n filter)
          (if text_eq name n then some lang else source)
          (lookup n (filter_language request name lang f).new_languages)
  filter_language-IsKept none name lang f n source e rest h =
      if_both (λ s. IsKept (lookup n filter) s (lookup n f.new_languages)) (text_eq name n)
        (some lang) source
        (λ same.
          let no_request = ap (λ k. lookup k filter) (sym ((text_eq_iff name n).0 same)) ∙ e in
          let gone =
            not_requested (lookup n filter) source (lookup n f.new_languages) no_request (rest h) in
          subst (IsKept (lookup n filter) (some lang)) (sym gone) (dropped lang no_request))
        (λ other. rest h)
  filter_language-IsKept (some request) name lang f n source e rest h =
      let (vs, selected, no_errs, new) =
        with_versions-ok name lang (requested_versions name lang.versions request) f h in
      let found =
        ap (lookup n) new ∙ lookup-insert name n (record lang { versions = vs }) f.new_languages in
      subst (IsKept (lookup n filter) (if text_eq name n then some lang else source)) (sym found)
        (elim (Bool-cases (text_eq name n)) [
          | inl same ↦ rw same (
              kept lang request vs
                (ap (λ k. lookup k filter) (sym ((text_eq_iff name n).0 same)) ∙ e)
                (requested_versions-IsRestricted name lang.versions vs request selected))
          | inr other ↦ rw other (rest no_errs)
        ])

  filter_languages-IsKept :
      (languages : Map Language) (n : Text)
      → (filter_languages filter languages).errs ≡ []
      → IsKept
          (lookup n filter)
          (lookup n languages)
          (lookup n (filter_languages filter languages).new_languages)
  unfolding filter_languages lookup
  filter_languages-IsKept [] n h = missing
  filter_languages-IsKept ((name, lang) ∷ languages) n h =
      filter_language-IsKept (lookup name filter) name lang (filter_languages filter languages) n
        (lookup n languages) refl (filter_languages-IsKept languages n) h

  new_registry-ok :
      (errs : List LoadError) (new out : Map Language)
      → new_registry errs new ≡ ok out
      → (errs ≡ []) × (new ≡ out)
  new_registry-ok [] new out h = (refl, cc)
  new_registry-ok (e ∷ es) new out h = absurd (cc)

  -- Where `Filter` returns no error, the registry has every language that the filter names, and under
  -- each name the new registry has nothing if the filter does not name it or the registry lacks it, and
  -- otherwise the language, unchanged but for its versions, which are exactly those asked for.
  pub filter_registry-IsKept :
      (languages out : Map Language)
      → filter_registry languages filter ≡ ok out
      → All (λ (name : Text). member name (keys languages) ≡ true) (keys filter)
        × ((n : Text) → IsKept (lookup n filter) (lookup n languages) (lookup n out))
  unfolding filter_registry
  filter_registry-IsKept languages out h =
      let f = filter_languages filter languages in
      let (no_errs, same) =
        new_registry-ok (f.errs ++ unknown_languages languages filter) f.new_languages out h in
      let (filtered, seen) = append-nil-both f.errs (unknown_languages languages filter) no_errs in
      (
        unknown_languages-none languages filter seen,
        λ n.
            subst (λ m. IsKept (lookup n filter) (lookup n languages) (lookup n m)) same
              (filter_languages-IsKept languages n filtered),
      )
