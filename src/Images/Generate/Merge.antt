-- ===== src/Images/Generate/Merge.antt =====
-- cmd/runboxctl/cmd/images/genimages.go: what a run makes of the registry that was there.
use runboxd.Base.{
  ◌≡◌, refl, sym, ap, ◌∙◌, subst, inl, inr, Bool, true, false, Option, none, some, List, [], ◌∷◌,
  arith, All, Bool-cases, Option-cases, if◌then◌else◌,
}
use mathlib.Core.Bool.{◌&&◌}
use runboxd.Base.Text.{Text, text_eq, text_eq_iff}
use runboxd.Base.Map.{Map, lookup, insert, lookup-insert}
use runboxd.Base.Result.{Result, ok, ◌>>=◌, >>=-eq-ok}
use runboxd.ImageSpec.Types.{ImageSpec, Version}
use runboxd.Registry.Types.{Language}
use runboxd.Registry.Types as R
use runboxd.Images.Generate.{
  Lockfile, Entry, GenError, Creates, registry_version, gen_version, gen_versions,
  untouched_versions, versions_of, new_language, gen_entry, gen_entries,
}

gen_version-ok :
    (creates : Creates) (lock : Option Lockfile) (spec : ImageSpec) (name : Text)
    (version : Version) (r : R.Version)
    → gen_version creates lock spec name version ≡ ok r
    → r ≡ registry_version spec.name name version
unfolding gen_version
gen_version-ok creates none spec name version r h = ground arith
gen_version-ok creates (some digests) spec name version r h = ground arith

-- What the loop over the versions leaves under a name.
gen_versions-lookup :
    (gen : Text → Version → Result GenError R.Version) (vs : Map Version) (kept out : Map R.Version)
    (v : Text)
    → gen_versions gen vs kept ≡ ok out
    → (lookup v vs ≡ none → lookup v out ≡ lookup v kept)
      × ((version : Version)
          → lookup v vs ≡ some version
          → (r : R.Version) × (gen v version ≡ ok r) × (lookup v out ≡ some r))
unfolding gen_versions lookup
gen_versions-lookup gen [] kept out v h = (λ n. ground arith, λ version n. cc)
gen_versions-lookup gen ((name, version) ∷ vs) kept out v h =
    let (mid, first, rest) = >>=-eq-ok (gen_versions gen vs kept) _ h in
    let (r, made, last) = >>=-eq-ok (gen name version) _ rest in
    let is_out : insert name r mid ≡ out = cc in
    let seen : lookup v out ≡ (if text_eq name v then some r else lookup v mid) =
      ap (lookup v) (sym is_out) ∙ lookup-insert name v r mid in
    let (absent, present) = gen_versions-lookup gen vs kept mid v first in
    (
      λ n. ground (arith, seen, absent),
      λ version' n. elim (Bool-cases (text_eq name v)) [
        | inl same ↦
            let key : name ≡ v = (text_eq_iff name v).0 same in
            let value : version ≡ version' = ground arith in
            (
              r,
              subst (λ k. gen k version' ≡ ok r) key (subst (λ x. gen name x ≡ ok r) value made),
              ground (arith, seen),
            )
        | inr other ↦
            let (r', made', at) = present version' (ground arith) in
            (r', made', ground (arith, seen))
      ],
    )

untouched_versions-lookup :
    (made : Map Version) (vs : Map R.Version) (v : Text)
    → lookup v made ≡ none
    → lookup v (untouched_versions made vs) ≡ lookup v vs
unfolding untouched_versions lookup
untouched_versions-lookup made [] v h = refl
untouched_versions-lookup made ((name, w) ∷ vs) v h =
    ground (arith, text_eq_iff name v, untouched_versions-lookup made vs v h)

-- A language as a run leaves it: the data of the specification, each version of it made anew, and
-- each other version as it was.
pub record IsMerged (spec : ImageSpec) (before : Option Language) (l : Language) : Type 0 where
  pub renewed : l ≡ new_language spec l.versions
  pub made :
      (v : Text) (version : Version)
      → lookup v spec.versions ≡ some version
      → lookup v l.versions ≡ some (registry_version spec.name v version)
  pub kept :
      (v : Text)
      → lookup v spec.versions ≡ none
      → lookup v l.versions ≡ lookup v (versions_of before)

-- An entry whose wrapper script can be read replaces its own language in the registry, where it
-- keeps the versions that the specification does not name, and leaves every other language alone.
pub gen_entry_lem :
    (creates : Creates) (lock : Option Lockfile) (languages out : Map Language) (entry : Entry)
    (wrapper : Text)
    → entry.wrapper ≡ some wrapper
    → gen_entry creates lock languages entry ≡ ok out
    → (l : Language) × IsMerged entry.spec (lookup entry.spec.name languages) l
      × ((lang : Text)
          → lookup lang out
            ≡ (if text_eq entry.spec.name lang then some l else lookup lang languages))
unfolding gen_entry new_language
gen_entry_lem creates lock languages out entry wrapper readable h =
    let spec = entry.spec in
    let before = lookup spec.name languages in
    let kept = untouched_versions spec.versions (versions_of before) in
    let gen = gen_version creates lock spec in
    let h' : (gen_versions gen spec.versions kept >>= λ versions.
    ok (insert spec.name (new_language spec versions) languages))
        ≡ ok out =
      ground arith in
    let (versions, made, last) = >>=-eq-ok (gen_versions gen spec.versions kept) _ h' in
    let l = new_language spec versions in
    let is_out : insert spec.name l languages ≡ out = cc in
    let at = λ (v : Text). gen_versions-lookup gen spec.versions kept versions v made in
    (
      l,
      record {
        renewed = refl;
        made = λ v version n.
            let (r, is_r, there) = (at v).1 version n in
            there ∙ ap some (gen_version-ok creates lock spec v version r is_r);
        kept = λ v n. (at v).0 n ∙ untouched_versions-lookup spec.versions (versions_of before) v n;
      },
      λ lang. ap (lookup lang) (sym is_out) ∙ lookup-insert spec.name lang l languages,
    )

-- A version of the registry, by the names of its language and of itself.
abbrev pub version_at : Text → Text → Map Language → Option R.Version
version_at lang v languages = lookup v (versions_of (lookup lang languages))

abbrev is_some {ℓ} : {A : Type ℓ} → Option A → Bool
is_some none = false
is_some (some a) = true

-- The entry names the version of the language.
abbrev pub touches : Text → Text → Entry → Bool
touches lang v entry = text_eq entry.spec.name lang && is_some (lookup v entry.spec.versions)

gen_entry-keeps :
    (creates : Creates) (lock : Option Lockfile) (languages out : Map Language) (entry : Entry)
    (lang v : Text)
    → gen_entry creates lock languages entry ≡ ok out
    → touches lang v entry ≡ false
    → version_at lang v out ≡ version_at lang v languages
unfolding gen_entry
gen_entry-keeps creates lock languages out entry lang v h other =
    elim (Option-cases entry.wrapper) [
      | inl unreadable ↦
          let same : languages ≡ out = ground arith in ap (version_at lang v) (sym same)
      | inr (wrapper, readable) ↦
          let (l, merged, at) = gen_entry_lem creates lock languages out entry wrapper readable h in
          elim (Bool-cases (text_eq entry.spec.name lang)) [
            | inr foreign ↦
                let there : lookup lang out ≡ lookup lang languages = ground (arith, at lang) in
                ap (λ o. lookup v (versions_of o)) there
            | inl own ↦
                let key : entry.spec.name ≡ lang = (text_eq_iff entry.spec.name lang).0 own in
                let there : lookup lang out ≡ some l = ground (arith, at lang) in
                ap (λ o. lookup v (versions_of o)) there
                ∙ merged.kept v (ground arith)
                ∙ ap (λ n. version_at n v languages) key
          ]
    ]

-- However many entries are generated, a version that none of them names stays in the registry as it
-- was: a run for some languages or versions drops no others.
pub gen_entries-keeps :
    (creates : Creates) (lock : Option Lockfile) (languages out : Map Language)
    (entries : List Entry) (lang v : Text)
    → gen_entries creates lock languages entries ≡ ok out
    → All (λ e. touches lang v e ≡ false) entries
    → version_at lang v out ≡ version_at lang v languages
unfolding gen_entries
gen_entries-keeps creates lock languages out [] lang v h others =
    let same : languages ≡ out = cc in ap (version_at lang v) (sym same)
gen_entries-keeps creates lock languages out (entry ∷ entries) lang v h (other, others) =
    let (mid, first, rest) =
      >>=-eq-ok (gen_entry creates lock languages entry) (λ m. gen_entries creates lock m entries)
        h in
    gen_entries-keeps creates lock mid out entries lang v rest others
    ∙ gen_entry-keeps creates lock languages mid entry lang v first other
