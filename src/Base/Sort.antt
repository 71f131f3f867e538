-- ===== src/Base/Sort.antt =====
-- Go's `sort.Strings`, and that its result does not depend on the order it is given.
use mathlib.Core.Path.{◌≡◌, refl, ◌∙◌}
use mathlib.Core.Bool.{true, false}
use mathlib.Core.List.{List, [], ◌∷◌}
use mathlib.Core.List.Permᴰ as P
use mathlib.Core.List.{Permᴰ}
use native.Mathlib.Omega.{arith}
use runboxd.Base.Tests.{if◌then◌else◌}
use runboxd.Base.Text.{Text, text_eq_iff, text_lt, text_lt_total}

insert_string : Text → List Text → List Text
insert_string s [] = s ∷ []
insert_string s (t ∷ ts) =
    let rest = insert_string s ts in if text_lt t s then t ∷ rest else s ∷ t ∷ ts

unfoldable pub sort_strings : List Text → List Text
unfolding insert_string
sort_strings [] = []
sort_strings (s ∷ ss) = insert_string s (sort_strings ss)

text_lt_irrefl : (s : Text) → text_lt s s ≡ false
unfolding text_lt
text_lt_irrefl [] = refl
text_lt_irrefl (x ∷ xs) = ground (arith, text_lt_irrefl xs)

text_lt_trans : (s t u : Text) → text_lt s t ≡ true → text_lt t u ≡ true → text_lt s u ≡ true
unfolding text_lt
text_lt_trans [] [] u h k = cc
text_lt_trans [] (y ∷ ys) [] h k = cc
text_lt_trans [] (y ∷ ys) (z ∷ zs) h k = refl
text_lt_trans (x ∷ xs) [] u h k = cc
text_lt_trans (x ∷ xs) (y ∷ ys) [] h k = cc
text_lt_trans (x ∷ xs) (y ∷ ys) (z ∷ zs) h k = ground (arith, text_lt_trans xs ys zs)

text_lt_asym : (s t : Text) → text_lt s t ≡ true → text_lt t s ≡ false
text_lt_asym s t h = ground (arith, text_lt_trans s t s h, text_lt_irrefl s)

-- What is not above a string is below what is above it.
text_lt_below : (s t u : Text) → text_lt s u ≡ true → text_lt s t ≡ false → text_lt t u ≡ true
text_lt_below s t u h k = ground (arith, text_eq_iff s t, text_lt_total s t, text_lt_trans t s u)

insert_string_comm :
    (s t : Text) (us : List Text)
    → insert_string s (insert_string t us) ≡ insert_string t (insert_string s us)
unfolding insert_string
insert_string_comm s t [] =
    ground (arith, text_lt_asym s t, text_lt_asym t s, text_lt_total s t, text_eq_iff s t)
insert_string_comm s t (u ∷ us) = ground (
  arith,
  text_lt_asym s t,
  text_lt_asym t s,
  text_lt_total s t,
  text_eq_iff s t,
  text_lt_below u s t,
  text_lt_below u t s,
  insert_string_comm s t us,
)

pub sort_strings-perm : {ss ts : List Text} → Permᴰ ss ts → sort_strings ss ≡ sort_strings ts
unfolding sort_strings
sort_strings-perm P.nil = refl
sort_strings-perm (P.cons {a} {b} e p) = let same = sort_strings-perm p in cc
sort_strings-perm (P.swap {a} {b} {l} e f) =
    let moved = insert_string_comm a b (sort_strings l) in cc
sort_strings-perm (P.trans p q) = sort_strings-perm p ∙ sort_strings-perm q
