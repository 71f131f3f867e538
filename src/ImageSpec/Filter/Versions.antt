-- ===== src/ImageSpec/Filter/Versions.antt =====
-- internal/imagespec/imagespec.go: `dedupeLangFilter` on the versions of one language.
use runboxd.Base.{
  ◌≡◌, refl, sym, ap, ◌∙◌, subst, true, false, not, ◌&&◌, ◌||◌, none, some, List, [], ◌∷◌, arith,
}
use runboxd.Base.Text.{Text, text_eq, text_eq_iff, text_lt, text_lt_total, is_empty, member}
use runboxd.ImageSpec.Filter.{insert_sorted, version_set, dedupe_versions, nil_if_empty}

-- In ascending order, without repetition.
abbrev pub IsAscending : List Text → Type 0
IsAscending [] = Unit
IsAscending (v ∷ []) = Unit
IsAscending (v ∷ w ∷ ws) = (text_lt v w ≡ true) × IsAscending (w ∷ ws)

insert_sorted-IsAscending :
    (v : Text) (ws : List Text) → IsAscending ws → IsAscending (insert_sorted v ws)
unfolding insert_sorted
insert_sorted-IsAscending v [] h = tt
insert_sorted-IsAscending v (w ∷ []) h = ground (arith, text_lt_total v w)
insert_sorted-IsAscending v (w ∷ x ∷ ws) h =
    ground (arith, text_lt_total v w, insert_sorted-IsAscending v (x ∷ ws))

member-insert_sorted :
    (u v : Text) (ws : List Text) → member u (insert_sorted v ws) ≡ (text_eq v u || member u ws)
unfolding member insert_sorted
member-insert_sorted u v [] = refl
member-insert_sorted u v (w ∷ ws) =
    ground (arith, text_eq_iff v w, text_eq_iff w u, text_eq_iff v u, member-insert_sorted u v ws)

version_set-IsAscending : (vs : List Text) → IsAscending (version_set vs)
unfolding version_set
version_set-IsAscending [] = tt
version_set-IsAscending (v ∷ vs) =
    ground (arith, insert_sorted-IsAscending v (version_set vs), version_set-IsAscending vs)

is_empty-eq : (v u : Text) → text_eq v u ≡ true → is_empty v ≡ is_empty u
is_empty-eq v u h = rw ((text_eq_iff v u).0 h)

member-version_set :
    (u : Text) (vs : List Text) → member u (version_set vs) ≡ (not (is_empty u) && member u vs)
unfolding member version_set
member-version_set u [] = ground arith
member-version_set u (v ∷ vs) =
    ground
      (arith, is_empty-eq v u, member-insert_sorted u v (version_set vs), member-version_set u vs)

nil_if_empty-some : (vs ws : List Text) → nil_if_empty vs ≡ some ws → ws ≡ vs
nil_if_empty-some vs ws h = ground arith

nil_if_empty-none : (vs : List Text) → nil_if_empty vs ≡ none → vs ≡ []
nil_if_empty-none vs h = ground arith

-- What a list of versions becomes: the versions in it that are not empty, in ascending order and
-- each once; or, exactly where there is no such version, a request for all of them.
pub dedupe_versions_lem :
    (vs : List Text)
    → ((ws : List Text)
        → dedupe_versions (some vs) ≡ some ws
        → IsAscending ws × ((u : Text) → member u ws ≡ (not (is_empty u) && member u vs)))
      × (dedupe_versions (some vs) ≡ none → (u : Text) → (not (is_empty u) && member u vs) ≡ false)
unfolding dedupe_versions member
dedupe_versions_lem vs = (kept, all)
  where
    kept :
        (ws : List Text)
        → dedupe_versions (some vs) ≡ some ws
        → IsAscending ws × ((u : Text) → member u ws ≡ (not (is_empty u) && member u vs))
    kept ws h =
        let e = nil_if_empty-some (version_set vs) ws h in
        (
          subst IsAscending (sym e) (version_set-IsAscending vs),
          λ u. rw e (member-version_set u vs),
        )

    all : dedupe_versions (some vs) ≡ none → (u : Text) → (not (is_empty u) && member u vs) ≡ false
    all h u = sym (member-version_set u vs) ∙ ap (member u) (nil_if_empty-none _ h)
