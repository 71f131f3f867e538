-- ===== src/Sandbox/Entries/Sound.antt =====
-- internal/sandbox/docker.go and nsjail.go: what holds of every entry of the table with which a backend
-- starts.
use runboxd.Base.{
  Bool, Option, none, some, [], ◌∷◌, ◌≡◌, refl, ◌∙◌, arith, inl, inr, ◌⊎◌, Bool-cases, subst,
}
use runboxd.Base.Int.{pos, ◌<ℤ◌}
use runboxd.Base.Text.{Text, text_eq, text_eq_iff}
use runboxd.Base.Map.{Map, lookup, insert, lookup-insert}
use runboxd.Base.Result.{Result, ok, ◌>>=◌, >>=-eq-ok}
use runboxd.Registry.Types.{Language, Version}
use runboxd.Sandbox.Limits.{
  LimitError, LangCompileLimits, resolve_lang_limits, validate_lang_limits,
  resolve_lang_compile_limits, validate_lang_compile_limits,
}
use runboxd.Sandbox.Limits.Positive.{resolve_lang_limits-positive}
use runboxd.Sandbox.Limits.Valid.{IsValid, validate_lang_limits-none}
use runboxd.Sandbox.Entries.{
  LangEntry, VersionSpec, StartError, version_specs, or_missing, or_fail, default_of, docker_entry,
  nsjail_entry, make_entries, spec_of, entry_of, with_versions, invalid_limits,
  invalid_compile_limits, no_compile_limits,
}

-- The key has a value.
abbrev pub Has {ℓ} : {A : Type ℓ} → Text → Map A → Type ℓ
Has k m = (a : _) × (lookup k m ≡ some a)

Has-insert {ℓ} : {A : Type ℓ} (k j : Text) (a : A) (m : Map A) → Has k m → Has k (insert j a m)
Has-insert k j a m (b, h) = elim (Bool-cases (text_eq j k)) [
  | inl same ↦ (a, (lookup-insert j k a m ∙ rw same refl))
  | inr other ↦ (b, (lookup-insert j k a m ∙ rw other h))
]

Has-inserted {ℓ} : {A : Type ℓ} (k : Text) (a : A) (m : Map A) → Has k (insert k a m)
Has-inserted k a m = (a, (lookup-insert k k a m ∙ ground (arith, text_eq_iff k k)))

-- An entry that has valid limits, which leave some time and some memory, and the version that stands for an empty one.
pub record IsSound (e : LangEntry) : Type 0 where
  pub valid : IsValid e.limits
  pub some_time : pos 0 <ℤ e.limits.min_timeout
  pub some_memory : pos 0 <ℤ e.limits.min_memory_bytes
  pub default_present : Has e.default_version e.versions

or_fail-ok :
    {A : Type 0} (f : LimitError → StartError) (o : Option LimitError) (a b : A)
    → or_fail f o a ≡ ok b
    → o ≡ none
or_fail-ok f none a b h = refl
or_fail-ok f (some e) a b h = cc

or_missing-ok :
    (name : Text) (o : Option Version) (v : Version) → or_missing name o ≡ ok v → o ≡ some v
or_missing-ok name none v h = cc
or_missing-ok name (some w) v h = cc

-- What is in the table of versions stays in it.
version_specs-keeps :
    (available : Version → Bool) (language k : Text) (specs : Map VersionSpec)
    (versions : Map Version) (out : Map VersionSpec)
    → version_specs available language specs versions ≡ ok out
    → Has k specs
    → Has k out
unfolding version_specs
version_specs-keeps available language k specs [] out h has =
    let same : specs ≡ out = cc in subst (Has k) same has
version_specs-keeps available language k specs ((j, v) ∷ versions) out h has =
    version_specs-keeps available language k (insert v.name (spec_of v) specs) versions out
      (ground arith) (Has-insert k v.name (spec_of v) specs has)

-- Each version that the loop meets is in it.
version_specs-Has :
    (available : Version → Bool) (language j : Text) (specs : Map VersionSpec)
    (versions : Map Version) (out : Map VersionSpec) (v : Version)
    → version_specs available language specs versions ≡ ok out
    → lookup j versions ≡ some v
    → Has v.name out
unfolding version_specs lookup
version_specs-Has available language j specs [] out v h met = cc
version_specs-Has available language j specs ((i, w) ∷ versions) out v h met =
    elim (Bool-cases (text_eq i j)) [
      | inl here ↦
          let same : w ≡ v = ground arith in
          subst (λ x. Has x.name out) same
            (version_specs-keeps available language w.name (insert w.name (spec_of w) specs)
              versions out (ground arith) (Has-inserted w.name (spec_of w) specs))
      | inr there ↦
          version_specs-Has available language j (insert w.name (spec_of w) specs) versions out v
            (ground arith) (ground arith)
    ]

with_versions-IsSound :
    (available : Version → Bool) (l : Language) (v : Version) (compile_limits : LangCompileLimits)
    (e : LangEntry)
    → default_of l ≡ ok v
    → validate_lang_limits (resolve_lang_limits l.limits) ≡ none
    → with_versions available l v compile_limits ≡ ok e
    → IsSound e
with_versions-IsSound available l v compile_limits e default valid h =
    let (versions, made, is_e) =
      >>=-eq-ok (version_specs available l.name [] l.versions)
        (λ versions. ok (entry_of l v.name compile_limits versions)) h in
    let present = or_missing-ok l.name (lookup l.default_version l.versions) v default in
    let same : entry_of l v.name compile_limits versions ≡ e = cc in
    let accepted = validate_lang_limits-none (resolve_lang_limits l.limits) valid in
    let positive = resolve_lang_limits-positive l.limits accepted in
    subst IsSound same (record {
      valid = accepted;
      some_time = positive.0;
      some_memory = positive.1;
      default_present =
          version_specs-Has available l.name l.default_version [] l.versions versions v made
            present;
    })

pub docker_entry-IsSound :
    (available : Version → Bool) (l : Language) (e : LangEntry)
    → docker_entry available l ≡ ok e
    → IsSound e
unfolding docker_entry
docker_entry-IsSound available l e h =
    let limits = resolve_lang_limits l.limits in
    let check = validate_lang_limits limits in
    let (v, default, h1) = >>=-eq-ok (default_of l) _ h in
    let (checked, valid, h2) =
      >>=-eq-ok (or_fail (invalid_limits l.name) check limits)
        (λ _. with_versions available l v no_compile_limits) h1 in
    with_versions-IsSound available l v no_compile_limits e default
      (or_fail-ok (invalid_limits l.name) check limits checked valid) h2

pub nsjail_entry-IsSound :
    (available : Version → Bool) (l : Language) (e : LangEntry)
    → nsjail_entry available l ≡ ok e
    → IsSound e
unfolding nsjail_entry
nsjail_entry-IsSound available l e h =
    let limits = resolve_lang_limits l.limits in
    let check = validate_lang_limits limits in
    let compile = resolve_lang_compile_limits l.compile_limits in
    let compile_check = validate_lang_compile_limits compile in
    let (v, default, h1) = >>=-eq-ok (default_of l) _ h in
    let (checked, valid, h2) =
      >>=-eq-ok (or_fail (invalid_limits l.name) check limits)
        (λ _. or_fail (invalid_compile_limits l.name) compile_check compile >>= λ compile'.
          with_versions available l v compile')
        h1 in
    let (compile', compile_valid, h3) =
      >>=-eq-ok (or_fail (invalid_compile_limits l.name) compile_check compile)
        (λ compile'. with_versions available l v compile') h2 in
    with_versions-IsSound available l v compile' e default
      (or_fail-ok (invalid_limits l.name) check limits checked valid) h3

-- A table of sound entries only.
abbrev pub AllSound : Map LangEntry → Type 0
AllSound specs = (lang : Text) (e : LangEntry) → lookup lang specs ≡ some e → IsSound e

pub make_entries-AllSound :
    (make : Language → Result StartError LangEntry)
    → ((l : Language) (e : LangEntry) → make l ≡ ok e → IsSound e)
    → (specs : Map LangEntry) (languages : Map Language) (out : Map LangEntry) → AllSound specs
    → make_entries make specs languages ≡ ok out
    → AllSound out
unfolding make_entries
make_entries-AllSound make sound specs [] out h made =
    let same : specs ≡ out = cc in subst AllSound same h
make_entries-AllSound make sound specs ((key, l) ∷ languages) out h made =
    let (e, is_e, rest) =
      >>=-eq-ok (make l) (λ e. make_entries make (insert l.name e specs) languages) made in
    make_entries-AllSound make sound (insert l.name e specs) languages out
      (λ lang f found_f. elim (Bool-cases (text_eq l.name lang)) [
        | inl same ↦
            let is_f : e ≡ f = ground (arith, lookup-insert l.name lang e specs) in
            subst IsSound is_f (sound l e is_e)
        | inr other ↦ h lang f (ground (arith, lookup-insert l.name lang e specs))
      ])
      rest

-- A backend that starts has, for each of its languages, valid limits that leave some time and memory,
-- and a default version that it knows, whichever of the two backends it is.
pub make_entries-IsSound :
    (available : Version → Bool) (languages : Map Language) (specs : Map LangEntry)
    → (make_entries (docker_entry available) [] languages ≡ ok specs)
      ⊎ (make_entries (nsjail_entry available) [] languages ≡ ok specs)
    → AllSound specs
unfolding lookup
make_entries-IsSound available languages specs (inl made) =
    make_entries-AllSound (docker_entry available) (docker_entry-IsSound available) [] languages
      specs (λ lang e h. cc) made
make_entries-IsSound available languages specs (inr made) =
    make_entries-AllSound (nsjail_entry available) (nsjail_entry-IsSound available) [] languages
      specs (λ lang e h. cc) made
