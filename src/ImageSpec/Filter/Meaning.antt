-- ===== src/ImageSpec/Filter/Meaning.antt =====
-- internal/imagespec/imagespec.go: what a parsed filter means, for each language on its own.
use mathlib.Core.List.{append_assoc, append-nil}
use mathlib.Core.Option
use runboxd.ImageSpec.Filter.Versions.{IsAscending, dedupe_versions_lem}
use runboxd.Base.{
  sym, subst, not, ◌&&◌, Option-cases, ◌≤◌, ◌≡◌, refl, ◌∙◌, ◌↔◌, inl, inr, Bool, false, ◌||◌,
  Option, none, some, List, [], ◌∷◌, ◌++◌, arith, ltb, if◌then◌else◌, length, All, take, ltb→ge,
  Bool-cases,
}
use runboxd.Base.Text.{Text, text_eq, text_eq_iff, is_empty, member, cut, split}
use runboxd.Base.Map.{lookup, insert, lookup-insert}
use runboxd.Base.Result.{ok, err, >>=-eq-ok}
use runboxd.ImageSpec.Types.{LangFilter}
use runboxd.ImageSpec.Filter.{
  max_raw_filter_length, too_long, empty_language, add_versions, parse_one, parse_all,
  dedupe_versions, dedupe_lang_filter, parse_lang_filter,
}

-- The language and the versions that one value of the flag names.
abbrev pub language_of : Text → Text
language_of r = (cut r b':').0

abbrev pub versions_of : Text → Text
versions_of r = (cut r b':').1

-- The values for one language, in order, each as the text behind its ':'.
unfoldable pub requests : Text → List Text → List Text
requests lang [] = []
requests lang (r ∷ raw) =
    if text_eq (language_of r) lang then versions_of r ∷ requests lang raw else requests lang raw

-- What the values for one language ask for: nothing, if there are none; all versions, if one of
-- them names no version; otherwise the versions that are named.
abbrev any_empty : List Text → Bool
any_empty [] = false
any_empty (v ∷ vs) = is_empty v || any_empty vs

abbrev all_parts : List Text → List Text
all_parts [] = []
all_parts (v ∷ vs) = split v b',' ++ all_parts vs

unfoldable pub asked : List Text → Option (Option (List Text))
asked [] = none
asked (v ∷ vs) = some (if any_empty (v ∷ vs) then none else some (all_parts (v ∷ vs)))

-- A value that can be parsed.
abbrev pub IsUsable : Text → Type 0
IsUsable r = (length r ≤ max_raw_filter_length) × (is_empty (language_of r) ≡ false)

-- The versions so far, and further values.
combine : Option (Option (List Text)) → List Text → Option (Option (List Text))
unfolding asked
combine none vs = asked vs
combine (some none) vs = some none
combine (some (some ws)) vs = some (if any_empty vs then none else some (ws ++ all_parts vs))

combine-add_versions :
    (current : Option (Option (List Text))) (v : Text) (vs : List Text)
    → combine (some (add_versions current v)) vs ≡ combine current (v ∷ vs)
unfolding combine add_versions
combine-add_versions none v vs = ground arith
combine-add_versions (some none) v vs = ground arith
combine-add_versions (some (some ws)) v vs =
    ground (arith, append_assoc ws (split v b',') (all_parts vs))

combine-nil : (current : Option (Option (List Text))) → combine current [] ≡ current
unfolding combine asked
combine-nil none = refl
combine-nil (some none) = refl
combine-nil (some (some ws)) = rw (append-nil ws)

two_guards {ℓ} :
    {A : Type ℓ} {E : Type 0} (b c : Bool) (d e : E) (x y : A)
    → (if b then err d else if c then err e else ok x) ≡ ok y
    → (b ≡ false) × (c ≡ false) × (y ≡ x)
two_guards b c d e x y h = ground arith

parse_one-ok :
    (filter filter' : LangFilter) (r : Text)
    → parse_one false filter r ≡ ok filter'
    → IsUsable r
      × (filter'
          ≡ insert
              (language_of r)
              (add_versions (lookup (language_of r) filter) (versions_of r))
              filter)
unfolding parse_one
parse_one-ok filter filter' r h =
    let l = language_of r in
    let inserted = insert l (add_versions (lookup l filter) (versions_of r)) filter in
    let (short, named, e) =
      two_guards (ltb max_raw_filter_length (length r)) (is_empty l)
        (too_long (take max_raw_filter_length r)) (empty_language r) inserted filter' h in
    ((ltb→ge max_raw_filter_length (length r) short, named), e)

ok-parse_one :
    (filter : LangFilter) (r : Text)
    → IsUsable r
    → (filter' : LangFilter) × (parse_one false filter r ≡ ok filter')
unfolding parse_one
ok-parse_one filter r u = (
  insert (language_of r) (add_versions (lookup (language_of r) filter) (versions_of r)) filter,
  ground arith,
)

-- One value changes what its language asks for, and nothing else.
parse_one-combine :
    (lang : Text) (filter filter' : LangFilter) (r : Text) (vs : List Text)
    → parse_one false filter r ≡ ok filter'
    → combine (lookup lang filter') vs
      ≡ combine
          (lookup lang filter)
          (if text_eq (language_of r) lang then versions_of r ∷ vs else vs)
parse_one-combine lang filter filter' r vs h =
    let l = language_of r in
    let current = add_versions (lookup l filter) (versions_of r) in
    let e = (parse_one-ok filter filter' r h).1 in
    rw (e, lookup-insert l lang current filter)
      (elim (Bool-cases (text_eq l lang)) [
        | inl same ↦
            rw (same, ← (text_eq_iff l lang).0 same)
              (combine-add_versions (lookup l filter) (versions_of r) vs)
        | inr other ↦ rw other
      ])

parse_all-lookup :
    (lang : Text) (filter f : LangFilter) (raw : List Text)
    → parse_all false filter raw ≡ ok f
    → lookup lang f ≡ combine (lookup lang filter) (requests lang raw)
unfolding parse_all requests
parse_all-lookup lang filter f [] h = ground (arith, combine-nil (lookup lang filter))
parse_all-lookup lang filter f (r ∷ raw) h =
    let (filter', one, rest) = >>=-eq-ok (parse_one false filter r) _ h in
    parse_all-lookup lang filter' f raw rest
    ∙ parse_one-combine lang filter filter' r (requests lang raw) one

lookup-dedupe :
    (lang : Text) (filter : LangFilter)
    → lookup lang (dedupe_lang_filter filter) ≡ Option.map dedupe_versions (lookup lang filter)
unfolding dedupe_lang_filter lookup
lookup-dedupe lang [] = refl
lookup-dedupe lang ((l, vs) ∷ filter) = ground (
  arith,
  lookup-insert l lang (dedupe_versions vs) (dedupe_lang_filter filter),
  lookup-dedupe lang filter,
)

-- What is asked for and what the filter has: nothing for nothing, all versions for all; for a list of
-- names the ones that are not empty, in ascending order and each once, or all versions if there is none.
pub data IsAsked : Option (Option (List Text)) → Option (Option (List Text)) → Type 0 where
  not_asked : IsAsked none none
  all_asked : IsAsked (some none) (some none)
  no_names :
      (names : List Text)
      → ((u : Text) → (not (is_empty u) && member u names) ≡ false)
      → IsAsked (some (some names)) (some none)
  some_names :
      (names versions : List Text)
      → IsAscending versions
      → ((u : Text) → member u versions ≡ (not (is_empty u) && member u names))
      → IsAsked (some (some names)) (some (some versions))

dedupe_versions-IsAsked :
    (o : Option (Option (List Text))) → IsAsked o (Option.map dedupe_versions o)
unfolding dedupe_versions
dedupe_versions-IsAsked none = not_asked
dedupe_versions-IsAsked (some none) = all_asked
dedupe_versions-IsAsked (some (some names)) = elim (Option-cases (dedupe_versions (some names))) [
  | inl unnamed ↦
      subst (λ o. IsAsked (some (some names)) (some o)) (sym unnamed)
        (no_names names ((dedupe_versions_lem names).1 unnamed))
  | inr (versions, named) ↦
      let (ascending, same) = (dedupe_versions_lem names).0 versions named in
      subst (λ o. IsAsked (some (some names)) (some o)) (sym named)
        (some_names names versions ascending same)
]

-- A parsed filter asks, for each language, for what the values that name it ask for together, wherever they
-- stand among the others: all versions where one of them names none, and otherwise the versions that
-- they name, in order and without repetition (all of them, if every name is empty); a language that no
-- value names is not in it.
pub lookup-parse_lang_filter :
    (raw : List Text) (f : LangFilter) (lang : Text)
    → parse_lang_filter raw false ≡ ok f
    → IsAsked (asked (requests lang raw)) (lookup lang f)
unfolding parse_lang_filter combine lookup
lookup-parse_lang_filter raw f lang h =
    let (g, parsed, e) = >>=-eq-ok (parse_all false [] raw) _ h in
    let deduped : lookup lang f ≡ Option.map dedupe_versions (asked (requests lang raw)) =
      cc (lookup-dedupe lang g, parse_all-lookup lang [] g raw parsed, e) in
    subst (IsAsked (asked (requests lang raw))) (sym deduped)
      (dedupe_versions-IsAsked (asked (requests lang raw)))

parse_all-IsUsable :
    (filter f : LangFilter) (raw : List Text) → parse_all false filter raw ≡ ok f → All IsUsable raw
unfolding parse_all
parse_all-IsUsable filter f [] h = tt
parse_all-IsUsable filter f (r ∷ raw) h =
    let (filter', one, rest) = >>=-eq-ok (parse_one false filter r) _ h in
    ((parse_one-ok filter filter' r one).0, parse_all-IsUsable filter' f raw rest)

IsUsable-parse_all :
    (filter : LangFilter) (raw : List Text)
    → All IsUsable raw
    → (f : LangFilter) × (parse_all false filter raw ≡ ok f)
unfolding parse_all
IsUsable-parse_all filter [] u = (filter, refl)
IsUsable-parse_all filter (r ∷ raw) u =
    let (filter', one) = ok-parse_one filter r u.0 in
    let (f, rest) = IsUsable-parse_all filter' raw u.1 in (f, rw one rest)

-- The values are parsed exactly when each is at most 100 bytes long and names a language.
pub parse_lang_filter_iff :
    (raw : List Text) → ((f : LangFilter) × (parse_lang_filter raw false ≡ ok f)) ↔ All IsUsable raw
unfolding parse_lang_filter
parse_lang_filter_iff raw = (
  λ (f, h).
      let (g, parsed, e) = >>=-eq-ok (parse_all false [] raw) _ h in
      parse_all-IsUsable [] g raw parsed,
  λ u. let (g, parsed) = IsUsable-parse_all [] raw u in (dedupe_lang_filter g, rw parsed),
)
