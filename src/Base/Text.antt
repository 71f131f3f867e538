-- ===== src/Base/Text.antt =====
-- Go's strings, as lists of their bytes, and the functions of the package `strings` that the
-- program calls. A `rune` that is white space is given by the bytes of its UTF-8 form.
use Prim.Native.Char.{code}
use Prim.Native.String.{String}
use Prim.Native.Nat.{ℕ, zero, suc, compare, Ordering}
use mathlib.Core.Path.{◌≡◌, refl}
use mathlib.Core.Logic.{◌↔◌}
use mathlib.Core.Bool.{Bool, true, false, ◌&&◌, ◌||◌}
use mathlib.Core.Option.{Option, none, some}
use mathlib.Core.List.{List, [], ◌∷◌, ◌++◌, reverse, map}
use runboxd.Base.Lists.{length}
use native.Mathlib.Omega.{arith}
use runboxd.Base.Tests.{◌==◌, if◌then◌else◌, ==_iff}

abbrev pub Text : Type 0
Text = List ℕ

-- The bytes of an ASCII literal.
abbrev pub text : String → Text
text String.[] = []
text (String.◌∷◌ c s) = code c ∷ text s

unfoldable pub text_eq : Text → Text → Bool
text_eq [] [] = true
text_eq [] (y ∷ ys) = false
text_eq (x ∷ xs) [] = false
text_eq (x ∷ xs) (y ∷ ys) = x == y && text_eq xs ys

pub text_eq_iff : (s t : Text) → (text_eq s t ≡ true) ↔ (s ≡ t)
unfolding text_eq
text_eq_iff [] [] = ground arith
text_eq_iff [] (y ∷ ys) = ground arith
text_eq_iff (x ∷ xs) [] = ground arith
text_eq_iff (x ∷ xs) (y ∷ ys) = ground (arith, ==_iff x y, text_eq_iff xs ys)

pub text_eq_refl : (s : Text) → text_eq s s ≡ true
text_eq_refl s = (text_eq_iff s s).1 refl

pub text_eq_sym : (s t : Text) → text_eq s t ≡ false → text_eq t s ≡ false
text_eq_sym s t h = ground (arith, text_eq_iff s t, text_eq_iff t s)

-- `s == ""`
abbrev pub is_empty : Text → Bool
is_empty [] = true
is_empty (c ∷ s) = false

-- `strings.CutPrefix(s, prefix)`; `none` is the result with `found` false.
unfoldable pub cut_prefix : Text → Text → Option Text
cut_prefix s [] = some s
cut_prefix [] (p ∷ ps) = none
cut_prefix (c ∷ s) (p ∷ ps) = elim (c == p) [ true ↦ cut_prefix s ps | false ↦ none ]

pub cut_prefix-append : (p s : Text) → cut_prefix (p ++ s) p ≡ some s
unfolding cut_prefix
cut_prefix-append [] s = refl
cut_prefix-append (c ∷ p) s = ground (arith, cut_prefix-append p s)

pub append-cut_prefix : (s p : Text) {t : Text} → cut_prefix s p ≡ some t → s ≡ p ++ t
unfolding cut_prefix
append-cut_prefix s [] h = ground arith
append-cut_prefix [] (p ∷ ps) h = ground arith
append-cut_prefix (c ∷ s) (p ∷ ps) {t} h = ground (arith, append-cut_prefix s ps {t = t})

-- `strings.HasPrefix(s, prefix)`
unfoldable pub has_prefix : Text → Text → Bool
unfolding cut_prefix
has_prefix s p = elim (cut_prefix s p) [ none ↦ false | some t ↦ true ]

-- `strings.Contains(s, substr)`
unfoldable pub contains : Text → Text → Bool
unfolding has_prefix
contains [] sub = is_empty sub
contains (c ∷ s) sub = has_prefix (c ∷ s) sub || contains s sub

-- `strings.Cut(s, sep)` for a separator of one byte: what stands before it, and behind it.
unfoldable pub cut : Text → ℕ → Text × Text
cut [] sep = ([], [])
cut (c ∷ s) sep =
    let (before, after) = cut s sep in if c == sep then ([], s) else (c ∷ before, after)

-- `strings.Split(s, sep)` for a separator of one byte. The result has at least one part.
abbrev on_head : (Text → Text) → List Text → List Text
on_head f [] = []
on_head f (p ∷ ps) = f p ∷ ps

unfoldable pub split : Text → ℕ → List Text
split [] sep = [] ∷ []
split (c ∷ s) sep = let rest = split s sep in if c == sep then [] ∷ rest else on_head (◌∷◌ c) rest

-- `strings.Join(parts, sep)`
unfoldable pub join : List Text → Text → Text
join [] sep = []
join (p ∷ []) sep = p
join (p ∷ q ∷ ps) sep = p ++ (sep ++ join (q ∷ ps) sep)

-- The order of Go's strings, byte by byte.
unfoldable pub text_lt : Text → Text → Bool
text_lt [] [] = false
text_lt [] (y ∷ ys) = true
text_lt (x ∷ xs) [] = false
text_lt (x ∷ xs) (y ∷ ys) = elim (compare x y) [
  | Ordering.lt ↦ true
  | Ordering.gt ↦ false
  | Ordering.eq ↦ text_lt xs ys
]

-- The UTF-8 forms of the runes for which `unicode.IsSpace` holds.
abbrev spaces : List Text
spaces =
    (9 ∷ [])
    ∷ (10 ∷ [])
    ∷ (11 ∷ [])
    ∷ (12 ∷ [])
    ∷ (13 ∷ [])
    ∷ (32 ∷ [])
    ∷ (0xc2 ∷ 0x85 ∷ [])
    ∷ (0xc2 ∷ 0xa0 ∷ [])
    ∷ (0xe1 ∷ 0x9a ∷ 0x80 ∷ [])
    ∷ (0xe2 ∷ 0x80 ∷ 0x80 ∷ [])
    ∷ (0xe2 ∷ 0x80 ∷ 0x81 ∷ [])
    ∷ (0xe2 ∷ 0x80 ∷ 0x82 ∷ [])
    ∷ (0xe2 ∷ 0x80 ∷ 0x83 ∷ [])
    ∷ (0xe2 ∷ 0x80 ∷ 0x84 ∷ [])
    ∷ (0xe2 ∷ 0x80 ∷ 0x85 ∷ [])
    ∷ (0xe2 ∷ 0x80 ∷ 0x86 ∷ [])
    ∷ (0xe2 ∷ 0x80 ∷ 0x87 ∷ [])
    ∷ (0xe2 ∷ 0x80 ∷ 0x88 ∷ [])
    ∷ (0xe2 ∷ 0x80 ∷ 0x89 ∷ [])
    ∷ (0xe2 ∷ 0x80 ∷ 0x8a ∷ [])
    ∷ (0xe2 ∷ 0x80 ∷ 0xa8 ∷ [])
    ∷ (0xe2 ∷ 0x80 ∷ 0xa9 ∷ [])
    ∷ (0xe2 ∷ 0x80 ∷ 0xaf ∷ [])
    ∷ (0xe2 ∷ 0x81 ∷ 0x9f ∷ [])
    ∷ (0xe3 ∷ 0x80 ∷ 0x80 ∷ [])
    ∷ []

-- The length of the first of the forms that the text begins with, or 0.
space_length : List Text → Text → ℕ
unfolding has_prefix
space_length [] s = 0
space_length (f ∷ fs) s = if has_prefix s f then length f else space_length fs s

-- Drops forms from the front; `skip` counts the bytes of a form that are still to go.
trim_front : List Text → ℕ → Text → Text
unfolding space_length
trim_front forms skip [] = []
trim_front forms (suc skip) (c ∷ s) = trim_front forms skip s
trim_front forms zero (c ∷ s) = elim (space_length forms (c ∷ s)) [
  | zero ↦ c ∷ s
  | suc k ↦ trim_front forms k s
]

unfoldable pub trim_left : Text → Text
unfolding trim_front
trim_left s = trim_front spaces 0 s

unfoldable pub trim_right : Text → Text
unfolding trim_front
trim_right s = reverse (trim_front (map reverse spaces) 0 (reverse s))

-- `strings.TrimSpace(s)`
unfoldable pub trim_space : Text → Text
unfolding trim_left trim_right
trim_space s = trim_right (trim_left s)

pub text_lt_total : (s t : Text) → text_eq s t ≡ false → text_lt s t ≡ false → text_lt t s ≡ true
unfolding text_eq text_lt
text_lt_total [] [] h k = cc
text_lt_total [] (y ∷ ys) h k = cc
text_lt_total (x ∷ xs) [] h k = refl
text_lt_total (x ∷ xs) (y ∷ ys) h k = ground (arith, text_lt_total xs ys)

-- `slices.Contains(ts, s)`
unfoldable pub member : Text → List Text → Bool
member s [] = false
member s (t ∷ ts) = text_eq t s || member s ts
