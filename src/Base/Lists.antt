-- ===== src/Base/Lists.antt =====
-- Lists measured and indexed by native numbers, under the library's names, and predicates on them.
use Prim.Native.Nat.{ℕ, zero, suc, ◌+◌, ◌-◌, ◌≤◌, min}
use mathlib.Core.Path.{◌≡◌, refl, ap}
use mathlib.Core.Bool.{Bool, true, false, ◌||◌}
use mathlib.Core.Logic.{◌↔◌}
use mathlib.Core.Option.{Option, none, some}
use runboxd.Base.Tests.{if◌then◌else◌}
use mathlib.Core.List.{List, [], ◌∷◌, ◌++◌}
use native.Mathlib.Omega.{arith}

module _ {ℓ} {A : Type ℓ} where
  abbrev pub length : List A → ℕ
  length [] = 0
  length (x ∷ xs) = suc (length xs)

  abbrev pub take : ℕ → List A → List A
  take zero xs = []
  take (suc n) [] = []
  take (suc n) (x ∷ xs) = x ∷ take n xs

  abbrev pub drop : ℕ → List A → List A
  drop zero xs = xs
  drop (suc n) [] = []
  drop (suc n) (x ∷ xs) = drop n xs

  pub length-append : (xs ys : List A) → length (xs ++ ys) ≡ length xs + length ys
  length-append [] ys = omega arith
  length-append (x ∷ xs) ys = omega (arith, length-append xs ys)

  pub length-take : (n : ℕ) (xs : List A) → length (take n xs) ≡ min n (length xs)
  length-take zero xs = omega arith
  length-take (suc n) [] = omega arith
  length-take (suc n) (x ∷ xs) = omega (arith, length-take n xs)

  pub take-nil : (n : ℕ) → take n [] ≡ []
  take-nil zero = refl
  take-nil (suc n) = refl

  pub take-append :
      (n : ℕ) (xs ys : List A) → take n (xs ++ ys) ≡ take n xs ++ take (n - length xs) ys
  take-append zero [] ys = refl
  take-append zero (x ∷ xs) ys = ground arith
  take-append (suc n) [] ys = ground arith
  take-append (suc n) (x ∷ xs) ys = ground (arith, take-append n xs ys)

  -- A prefix no longer than the list may be cut off at the list's end.
  pub take-min : (k n : ℕ) (xs : List A) → k ≡ min (length xs) n → take k xs ≡ take n xs
  take-min zero zero xs h = refl
  take-min zero (suc n) [] h = refl
  take-min zero (suc n) (x ∷ xs) h = absurd (omega arith)
  take-min (suc k) n [] h = absurd (omega arith)
  take-min (suc k) zero (x ∷ xs) h = absurd (omega arith)
  take-min (suc k) (suc n) (x ∷ xs) h = ap (◌∷◌ x) (take-min k n xs (omega arith))

  pub take_all : (n : ℕ) (xs : List A) → length xs ≤ n → take n xs ≡ xs
  take_all zero [] h = refl
  take_all zero (x ∷ xs) h = elim h [ ]
  take_all (suc n) [] h = refl
  take_all (suc n) (x ∷ xs) h = ap (◌∷◌ x) (take_all n xs (omega arith))

module _ {ℓ κ} {A : Type ℓ} (P : A → Type κ) where
  -- Every element satisfies `P`.
  abbrev pub All : List A → Type κ
  All [] = Unit
  All (x ∷ xs) = P x × All xs

  pub All-append : (xs ys : List A) → All xs → All ys → All (xs ++ ys)
  All-append [] ys hx hy = hy
  All-append (x ∷ xs) ys (px, hx) hy = (px, All-append xs ys hx hy)

module _ {ℓ} {A : Type ℓ} where
  -- Some element passes the test, every element does.
  pub any : (A → Bool) → List A → Bool
  any p [] = false
  any p (x ∷ xs) = p x || any p xs

  -- A chain of early returns, `if test { return error }`: the first test that passes decides.
  abbrev pub first_error : List (Bool × A) → Option A
  first_error [] = none
  first_error ((test, e) ∷ cs) = if test then some e else first_error cs

  pub first_error-none : (cs : List (Bool × A)) → first_error cs ≡ none → All (λ c. c.0 ≡ false) cs
  first_error-none [] h = tt
  first_error-none ((true, e) ∷ cs) h = cc
  first_error-none ((false, e) ∷ cs) h = (refl, first_error-none cs h)

  pub none-first_error : (cs : List (Bool × A)) → All (λ c. c.0 ≡ false) cs → first_error cs ≡ none
  none-first_error [] h = refl
  none-first_error ((test, e) ∷ cs) (t, h) = rw t (none-first_error cs h)

  -- One check that returns an error.
  pub if_some-none : (b : Bool) (e : A) → ((if b then some e else none) ≡ none) ↔ (b ≡ false)
  if_some-none true e = (λ h. cc, λ h. cc)
  if_some-none false e = (λ h. refl, λ h. refl)
