-- ===== src/FilePath.antt =====
-- The functions of Go's package `path/filepath` that the program calls on paths of a request
-- (`IsLocal`, `Join`, `Dir`), as the documentation of `Clean` describes them. A path that is
-- absolute and clean is the list of its names, the last one first.
use runboxd.Base.{
  ◌≡◌, refl, sym, ◌∙◌, Bool, true, false, not, ◌&&◌, List, [], ◌∷◌, ◌++◌, arith, if◌then◌else◌,
  Bool-cases, inl, inr, ◌==◌,
}
use mathlib.Core.Bool.{false≢true}
use runboxd.Base.Text.{Text, text, text_eq, is_empty, split}

pub data Part : Type 0 where
  skip up name : Part

-- A part of a path: nothing or ".", "..", or a name.
unfoldable pub classify : Text → Part
unfolding text_eq
classify [] = skip
classify (c ∷ s) =
    if text_eq (c ∷ s) (text ".") then skip else if text_eq (c ∷ s) (text "..") then up else name

-- One part of a relative path: ".." takes a name off, and is kept where there is none.
go_up : List Text → List Text
go_up [] = text ".." ∷ []
go_up (x ∷ s) = elim (classify x) [ up ↦ text ".." ∷ x ∷ s | _ ↦ s ]

unfoldable pub rel_step : List Text → Text → List Text
unfolding go_up
rel_step s c = elim (classify c) [ skip ↦ s | up ↦ go_up s | name ↦ c ∷ s ]

-- One part of a path below a root: at the root ".." is dropped.
abbrev parent : List Text → List Text
parent [] = []
parent (x ∷ s) = s

unfoldable pub abs_step : List Text → Text → List Text
abs_step s c = elim (classify c) [ skip ↦ s | up ↦ parent s | name ↦ c ∷ s ]

unfoldable pub rel_walk : List Text → List Text → List Text
unfolding rel_step
rel_walk s [] = s
rel_walk s (c ∷ cs) = rel_walk (rel_step s c) cs

unfoldable pub abs_walk : List Text → List Text → List Text
unfolding abs_step
abs_walk s [] = s
abs_walk s (c ∷ cs) = abs_walk (abs_step s c) cs

-- The clean form of a relative path does not begin with "..".
unfoldable pub stays_inside : List Text → Bool
stays_inside [] = true
stays_inside (x ∷ []) = elim (classify x) [ up ↦ false | _ ↦ true ]
stays_inside (x ∷ y ∷ s) = stays_inside (y ∷ s)

-- `filepath.Clean(p)` of a relative path
unfoldable pub clean : Text → List Text
unfolding rel_walk
clean p = rel_walk [] (split p b'/')

abbrev is_abs : Text → Bool
is_abs [] = false
is_abs (c ∷ s) = c == b'/'

-- `filepath.IsLocal(p)`
unfoldable pub is_local : Text → Bool
is_local p = not (is_abs p) && (not (is_empty p) && stays_inside (clean p))

-- `filepath.Join(root, p)`
unfoldable pub join_path : List Text → Text → List Text
join_path root p = abs_walk root (split p b'/')

-- `filepath.Dir` of a clean absolute path
abbrev pub dir : List Text → List Text
dir = parent

-- ".." stands at the front of a clean path only, so a stack whose top is ".." does not stay inside.
abbrev UpsFirst : List Text → Type 0
UpsFirst [] = Unit
UpsFirst (x ∷ s) = (classify x ≡ up → stays_inside (x ∷ s) ≡ false) × UpsFirst s

classify-up : classify (text "..") ≡ up
unfolding classify
classify-up = refl

rel_step-UpsFirst : (s : List Text) (c : Text) → UpsFirst s → UpsFirst (rel_step s c)
unfolding rel_step stays_inside
rel_step-UpsFirst [] c h = ground (arith, classify-up)
rel_step-UpsFirst (x ∷ s) c h = ground (arith, classify-up)

rel_step_outside :
    (s : List Text) (c : Text) → stays_inside s ≡ false → stays_inside (rel_step s c) ≡ false
unfolding rel_step stays_inside
rel_step_outside [] c h = cc
rel_step_outside (x ∷ []) c h = ground arith
rel_step_outside (x ∷ y ∷ s) c h = ground arith

rel_walk_outside :
    (s cs : List Text) → stays_inside s ≡ false → stays_inside (rel_walk s cs) ≡ false
unfolding rel_walk
rel_walk_outside s [] h = h
rel_walk_outside s (c ∷ cs) h = rel_walk_outside (rel_step s c) cs (rel_step_outside s c h)

-- While the relative path stays inside, a step below a root does the same above that root.
abs_step-rel_step :
    (root s : List Text) (c : Text)
    → UpsFirst s
    → stays_inside (rel_step s c) ≡ true
    → abs_step (s ++ root) c ≡ rel_step s c ++ root
unfolding abs_step rel_step stays_inside
abs_step-rel_step root [] c h e = ground (arith, classify-up)
abs_step-rel_step root (x ∷ s) c h e = ground (arith, classify-up)

abs_walk-rel_walk :
    (root s cs : List Text)
    → UpsFirst s
    → stays_inside (rel_walk s cs) ≡ true
    → abs_walk (s ++ root) cs ≡ rel_walk s cs ++ root
unfolding abs_walk rel_walk
abs_walk-rel_walk root s [] h e = refl
abs_walk-rel_walk root s (c ∷ cs) h e = elim (Bool-cases (stays_inside (rel_step s c))) [
  | inl inside ↦
      rw (abs_step-rel_step root s c h inside)
        (abs_walk-rel_walk root (rel_step s c) cs (rel_step-UpsFirst s c h) e)
  | inr outside ↦ absurd (false≢true (sym (rel_walk_outside _ cs outside) ∙ e))
]

-- A local path, joined to a root, names a place at or below that root: the names of its clean form
-- stand above the root's.
pub join_path-is_local :
    (root : List Text) (p : Text) → is_local p ≡ true → join_path root p ≡ clean p ++ root
unfolding is_local join_path clean
join_path-is_local root p h = abs_walk-rel_walk root [] (split p b'/') tt (ground arith)
