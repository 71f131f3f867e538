-- ===== src/Base/Map.antt =====
-- Go's maps with string keys, as association lists. A loop over a map visits the entries in the
-- list's order; since the lists of a theorem are arbitrary, so is that order.
use mathlib.Core.Path.{◌≡◌, refl, subst}
use mathlib.Core.Logic.{inl, inr}
use mathlib.Core.Option.{Option, none, some}
use mathlib.Core.List.{List, [], ◌∷◌}
use native.Mathlib.Omega.{arith}
use runboxd.Base.Tests.{if◌then◌else◌, Bool-cases}
use runboxd.Base.Lists.{All}
use runboxd.Base.Text.{Text, text_eq, text_eq_iff, member}
use mathlib.Core.Bool.{true}

abbrev pub Map {ℓ} : Type ℓ → Type ℓ
Map V = List (Text × V)

module _ {ℓ} {V : Type ℓ} where
  unfoldable pub lookup : Text → Map V → Option V
  lookup k [] = none
  lookup k ((j, v) ∷ m) = if text_eq j k then some v else lookup k m

  -- `m[k] = v`
  unfoldable pub insert : Text → V → Map V → Map V
  insert k v [] = (k, v) ∷ []
  insert k v ((j, w) ∷ m) = if text_eq j k then (k, v) ∷ m else (j, w) ∷ insert k v m

  unfoldable pub keys : Map V → List Text
  keys [] = []
  keys ((k, v) ∷ m) = k ∷ keys m

  pub lookup-insert :
      (k j : Text) (v : V) (m : Map V)
      → lookup j (insert k v m) ≡ (if text_eq k j then some v else lookup j m)
  unfolding lookup insert
  lookup-insert k j v [] = refl
  lookup-insert k j v ((i, w) ∷ m) =
      ground (arith, text_eq_iff k j, text_eq_iff i k, text_eq_iff i j, lookup-insert k j v m)

-- What holds of every entry holds of one that is found.
pub lookup-All {ℓ κ} :
    {A : Type ℓ} (P : Text × A → Type κ) (k : Text) (a : A) (m : Map A)
    → lookup k m ≡ some a
    → All P m
    → P (k, a)
unfolding lookup
lookup-All P k a [] h all = absurd (cc)
lookup-All P k a ((j, b) ∷ m) h (here, all) = elim (Bool-cases (text_eq j k)) [
  | inl same ↦
      let key : j ≡ k = (text_eq_iff j k).0 same in
      let value : b ≡ a = ground arith in subst P (λ i. (key i, value i)) here
  | inr other ↦ lookup-All P k a m (ground arith) all
]

pub lookup-keys {ℓ} :
    {A : Type ℓ} (k : Text) (m : Map A) → member k (keys m) ≡ true → (a : A) × (lookup k m ≡ some a)
unfolding lookup keys member
lookup-keys k [] h = absurd (cc)
lookup-keys k ((j, a) ∷ m) h = elim (Bool-cases (text_eq j k)) [
  | inl same ↦ (a, ground (arith, same))
  | inr other ↦
      let (b, found) = lookup-keys k m (ground (arith, other)) in (b, ground (arith, other, found))
]
