-- ===== src/Sandbox/Docker/Reaper/Age.antt =====
-- internal/sandbox/docker.go: how old a container is when it is removed, beside the time that a run may
-- take.
use runboxd.Base.{
  ℕ, ◌+◌, ◌-◌, ◌/◌, ◌≤◌, ◌<◌, ◌≡◌, refl, true, false, List, [], ◌∷◌, sym, ◌∙◌, some, inl, inr, All,
  Bool-cases, if_both, arith,
}
use mathlib.Core.Bool.{false≢true}
use runboxd.Base.Map.{Map, lookup}
use runboxd.Base.Int.{ℤ, pos, pos_part}
use runboxd.Base.Text.{Text, text_eq, member}
use runboxd.Sandbox.Limits.{LangLimits}
use runboxd.Sandbox.Clamp.{effective_timeout}
use runboxd.Sandbox.Docker.Reaper.{
  second, reap_max_age, unix_before, is_orphan, Listed, orphans, reap_orphans, reap,
}

-- The time in seconds that the daemon gives for a container created at `t`.
abbrev pub created_at : ℕ → ℤ
created_at t = pos (t / second)

is_orphan-old :
    (t now : ℕ) → t + reap_max_age ≤ now → is_orphan (created_at t) now reap_max_age ≡ true
unfolding is_orphan unix_before
is_orphan-old t now old = ground arith

is_orphan-young :
    (t now : ℕ)
    → now ≤ t + (reap_max_age - second)
    → is_orphan (created_at t) now reap_max_age ≡ false
unfolding is_orphan unix_before
is_orphan-young t now young = ground arith

listed : Map ℕ → List Listed
listed [] = []
listed ((id, t) ∷ cs) = record { id = id; created = created_at t } ∷ listed cs

module _ (now : ℕ) (id : Text) where
  abbrev IsYoung : Text × ℕ → Type 0
  IsYoung (other, t) = text_eq other id ≡ true → now ≤ t + (reap_max_age - second)

  orphans-spares :
      (cs : Map ℕ) → All IsYoung cs → member id (orphans (listed cs) now reap_max_age) ≡ false
  unfolding orphans listed member
  orphans-spares [] all = refl
  orphans-spares ((other, t) ∷ cs) (young, all) =
      if_both (λ ids. member id ids ≡ false) (is_orphan (created_at t) now reap_max_age)
        (other ∷ orphans (listed cs) now reap_max_age) (orphans (listed cs) now reap_max_age)
        (λ old. elim (Bool-cases (text_eq other id)) [
          | inl same ↦ absurd (false≢true (sym (is_orphan-young t now (young same)) ∙ old))
          | inr different ↦ ground (arith, different, orphans-spares cs all)
        ])
        (λ kept. orphans-spares cs all)

  orphans-removes :
      (cs : Map ℕ) (t : ℕ)
      → lookup id cs ≡ some t
      → t + reap_max_age ≤ now
      → member id (orphans (listed cs) now reap_max_age) ≡ true
  unfolding orphans listed member lookup
  orphans-removes [] t here old = absurd (cc)
  orphans-removes ((other, t') ∷ cs) t here old = elim (Bool-cases (text_eq other id)) [
    | inl same ↦
        let at : t' ≡ t = ground (arith, same) in
        rw (is_orphan-old t' now (omega (arith, at, old)), same) refl
    | inr different ↦
        let found : lookup id cs ≡ some t = ground (arith, different) in
        if_both (λ ids. member id ids ≡ true) (is_orphan (created_at t') now reap_max_age)
          (other ∷ orphans (listed cs) now reap_max_age) (orphans (listed cs) now reap_max_age)
          (λ is_old. ground (arith, orphans-removes cs t found old))
          (λ kept. orphans-removes cs t found old)
  ]

-- Of the containers that the daemon lists, with the times they were created at, the reaper removes one
-- that is a minute old or older and spares one of which every container with its id is at most 59
-- seconds old.
reap_lem :
    (now : ℕ) (id : Text) (cs : Map ℕ)
    → (All (IsYoung now id) cs → member id (reap (some (listed cs)) now) ≡ false)
      × ((t : ℕ)
          → lookup id cs ≡ some t
          → t + reap_max_age ≤ now
          → member id (reap (some (listed cs)) now) ≡ true)
unfolding reap reap_orphans
reap_lem now id cs = (orphans-spares now id cs, orphans-removes now id cs)

-- The time of a run counts from the start of its container, `delay` after the creation. Where the delay and
-- this time are at most 59 seconds together, the container is no orphan until the time is over; where they
-- are more than a minute together, it is one before.
pub is_orphan-run :
    (requested : ℤ) (l : LangLimits) (t delay : ℕ)
    → (delay + pos_part (effective_timeout requested l) ≤ reap_max_age - second
        → (now : ℕ) → now ≤ t + delay + pos_part (effective_timeout requested l)
        → is_orphan (created_at t) now reap_max_age ≡ false)
      × (reap_max_age < delay + pos_part (effective_timeout requested l)
          → (now : ℕ) × (now < t + delay + pos_part (effective_timeout requested l))
            × (is_orphan (created_at t) now reap_max_age ≡ true))
is_orphan-run requested l t delay =
    let n = pos_part (effective_timeout requested l) in
    (
      λ short now alive. is_orphan-young t now (omega (arith, short, alive)),
      λ long.
          (t + reap_max_age, omega (arith, long), is_orphan-old t (t + reap_max_age) (omega arith)),
    )
