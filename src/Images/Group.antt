-- ===== src/Images/Group.antt =====
-- cmd/runboxctl/cmd/images: the passes over the versions of the registry that `runBuildImages` and
-- `runExportRootFS` start as goroutines of one errgroup. The group runs each of them once, in an
-- order that is an argument, and returns the first error; passes that touch nothing in common are
-- taken one after the other.
use runboxd.Base.{◌≡◌, refl, subst, Option, none, some, List, [], ◌∷◌, ◌++◌, All, if◌then◌else◌}
use mathlib.Core.List.{Permᴰ}
use mathlib.Core.List.Permᴰ as P
use runboxd.Base.Text.{Text, text_eq}
use runboxd.Base.Map.{Map}
use runboxd.Registry.Types.{Language, Version}

-- One goroutine: a version of a language.
pub record Target : Type 0 where
  pub entry : Text
  pub version : Version

unfoldable pub version_targets : Text → Map Version → List Target
version_targets name [] = []
version_targets name ((key, v) ∷ versions) =
    record { entry = name; version = v } ∷ version_targets name versions

-- What a name stands for, set anew.
unfoldable pub put {ℓ} : {X : Type ℓ} → Text → X → (Text → X) → Text → X
put k x f j = if text_eq k j then x else f j

-- The two loops.
unfoldable pub targets : Map Language → List Target
targets [] = []
targets ((key, l) ∷ languages) = version_targets l.name l.versions ++ targets languages

-- `g.Wait()`
abbrev pub first_of {ℓ} : {E : Type ℓ} → Option E → Option E → Option E
first_of none later = later
first_of (some e) later = some e

module _ {T S E : Type 0} (pass : T → S → S × Option E) where
  unfoldable pub run_group : List T → S → S × Option E
  run_group [] s = (s, none)
  run_group (t ∷ ts) s =
      let here = pass t s in let rest = run_group ts here.0 in (rest.0, first_of here.1 rest.1)

first_of-none {ℓ} : {E : Type ℓ} (a b : Option E) → first_of a b ≡ none → (a ≡ none) × (b ≡ none)
first_of-none none b h = (refl, h)
first_of-none (some e) b h = absurd (cc)

-- No two of them touch something in common.
pub data AllApart {T : Type 0} (Apart : T → T → Type 0) : List T → Type 0 where
  nil : AllApart Apart []
  cons : {t : T} {ts : List T} → All (Apart t) ts → AllApart Apart ts → AllApart Apart (t ∷ ts)

-- What a pass makes true of its own target stays true while passes apart from it run, if each of them
-- keeps it, and what a pass relies on is there when it runs.
module _ {T S E : Type 0} (pass : T → S → S × Option E) (Apart : T → T → Type 0)
    (Pre Post : T → S → Type 0)
    (done : (t : T) (s : S) → Pre t s → (pass t s).1 ≡ none → Post t (pass t s).0)
    (keeps_pre : (t u : T) (s : S) → Apart t u → Pre u s → Pre u (pass t s).0)
    (keeps_post : (t u : T) (s : S) → Apart u t → Post u s → Post u (pass t s).0) where
  All-Pre :
      (t : T) (ts : List T) (s : S)
      → All (Apart t) ts
      → All (λ u. Pre u s) ts
      → All (λ u. Pre u (pass t s).0) ts
  All-Pre t [] s apart pre = tt
  All-Pre t (u ∷ ts) s (here, apart) (p, pre) = (keeps_pre t u s here p, All-Pre t ts s apart pre)

  post_kept :
      (u : T) (ts : List T) (s : S) → All (Apart u) ts → Post u s → Post u (run_group pass ts s).0
  unfolding run_group
  post_kept u [] s apart post = post
  post_kept u (t ∷ ts) s (here, apart) post =
      post_kept u ts (pass t s).0 apart (keeps_post t u s here post)

  -- A group that returns no error has made it true of every target.
  pub run_group-ok :
      (ts : List T) (s : S)
      → AllApart Apart ts
      → All (λ t. Pre t s) ts
      → (run_group pass ts s).1 ≡ none
      → All (λ t. Post t (run_group pass ts s).0) ts
  unfolding run_group
  run_group-ok [] s apart pre ended = tt
  run_group-ok (t ∷ ts) s (cons here apart) (p, pre) ended =
      let (first, rest) = first_of-none _ _ ended in
      (
        post_kept t ts (pass t s).0 here (done t s p first),
        run_group-ok ts (pass t s).0 apart (All-Pre t ts s here pre) rest,
      )

module _ {T : Type 0} where
  pub All-perm : (Q : T → Type 0) {ts us : List T} → Permᴰ ts us → All Q ts → All Q us
  All-perm Q P.nil h = tt
  All-perm Q (P.cons e p) (q, h) = (subst Q e q, All-perm Q p h)
  All-perm Q (P.swap e f) (q, (r, h)) = (subst Q f r, (subst Q e q, h))
  All-perm Q (P.trans p q) h = All-perm Q q (All-perm Q p h)
