-- ===== src/Base/Result.antt =====
-- Go's pair of a value and an error, where the value counts only if the error is nil.
use mathlib.Core.Path.{◌≡◌, refl}
use mathlib.Core.Logic.{◌⊎◌, inl, inr}
use mathlib.Core.Bool.{Bool, true, false}
use mathlib.Core.Option.{Option, none}
use runboxd.Base.Tests.{if◌then◌else◌}

pub data Result {ℓ} (E : Type 0) (A : Type ℓ) : Type ℓ where
  ok : A → Result E A
  err : E → Result E A

infixl 5 ◌>>=◌
abbrev pub ◌>>=◌ {ℓ κ} :
    {E : Type 0} {A : Type ℓ} {B : Type κ} → Result E A → (A → Result E B) → Result E B
ok a >>= f = f a
err e >>= f = err e

module _ {ℓ} {E : Type 0} {A : Type ℓ} where
  pub Result-cases : (r : Result E A) → ((e : E) × (r ≡ err e)) ⊎ ((a : A) × (r ≡ ok a))
  Result-cases (err e) = inl (e, refl)
  Result-cases (ok a) = inr (a, refl)

-- A chain that succeeds went through its first part.
pub >>=-eq-ok {ℓ κ} :
    {E : Type 0} {A : Type ℓ} {B : Type κ} (first : Result E A) (next : A → Result E B) {out : B}
    → (first >>= next) ≡ ok out
    → (mid : A) × (first ≡ ok mid) × (next mid ≡ ok out)
>>=-eq-ok (err stop) next eq = cc
>>=-eq-ok (ok mid) next eq = (mid, refl, eq)

-- A state and an error, by the test that chose between two of them.
pub if_ok {ℓ κ} :
    {S : Type 0} {E : Type ℓ} (P : S → Type κ) (test : Bool) (r t : S × Option E)
    → (test ≡ true → r.1 ≡ none → P r.0)
    → (test ≡ false → t.1 ≡ none → P t.0)
    → (if test then r else t).1 ≡ none
    → P (if test then r else t).0
if_ok P true r t yes_ok no_ok ended = yes_ok refl ended
if_ok P false r t yes_ok no_ok ended = no_ok refl ended
