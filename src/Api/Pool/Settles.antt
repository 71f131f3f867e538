-- ===== src/Api/Pool/Settles.antt =====
-- internal/api/workerpool.go: the requests that are in the middleware all come to an answer.
use runboxd.Base.{
  ℕ, suc, ◌+◌, ◌*◌, ◌≤◌, ◌<◌, ◌≡◌, refl, ap, ◌⊎◌, inl, inr, List, [], ◌∷◌, ◌++◌, arith, All, length,
}
use native.Mathlib.Decide.{dec_lt, dec_le}
use runboxd.Base.Int.{ℤ, pos_part, neg_part, ◌≤ℤ◌, ◌<ℤ◌}
use runboxd.Api.Pool.{
  WorkerPool, Pc, arrived, joining, rejecting, queued, entering, leaving, running, answered, Move,
  take_slot, find_full, join, overflow, reject, get_slot, enter, give_up, leave, finish, System,
  act, Reach, next, signed32, increment,
}
use runboxd.Api.Pool.Invariant.{total, total-middle}
use runboxd.Api.Pool.Safety.{slot_or_holder, split_total}

-- The accesses that a request may still make.
abbrev pub rank : Pc → ℕ
rank arrived = 5
rank joining = 4
rank queued = 3
rank entering = 2
rank running = 1
rank leaving = 1
rank rejecting = 1
rank (answered code) = 0

Move-rank : {m m' : WorkerPool} {p q : Pc} → Move m p m' q → rank q < rank p
Move-rank (take_slot h) = omega arith
Move-rank (find_full h) = omega arith
Move-rank (join h) = omega arith
Move-rank (overflow h) = omega arith
Move-rank reject = omega arith
Move-rank (get_slot h) = omega arith
Move-rank enter = omega arith
Move-rank give_up = omega arith
Move-rank leave = omega arith
Move-rank (finish code) = omega arith

-- A number of accesses by the requests that are there, while none arrives and none departs.
pub data Acts : System → ℕ → System → Type 0 where
  rest : {s : System} → Acts s 0 s
  more :
      {s : System} {n : ℕ} {t : System} {m : WorkerPool} {p q : Pc} (before after : List Pc)
      → Acts s n t
      → t.requests ≡ before ++ p ∷ after
      → Move t.pool p m q
      → Acts s (suc n) (record { pool = m; requests = before ++ q ∷ after })

Acts-Reach :
    {size : ℕ} {k : ℤ} {s t : System} {n : ℕ} → Acts s n t → Reach size k s → Reach size k t
Acts-Reach rest r = r
Acts-Reach (more before after acts e mv) r = next (Acts-Reach acts r) (act before after e mv)

Acts-rank : {s t : System} {n : ℕ} → Acts s n t → n + total rank t.requests ≤ total rank s.requests
Acts-rank rest = omega arith
Acts-rank (more {t} {p} {q} before after acts e mv) = omega (
  arith,
  Acts-rank acts,
  ap (total rank) e,
  total-middle rank before after p,
  total-middle rank before after q,
  Move-rank mv,
)

abbrev pub Answered : Pc → Type 0
Answered p = (code : ℕ) × (p ≡ answered code)

-- A request that can go on at once, without its context being done.
abbrev pub CanGo : System → Type 0
CanGo s =
    (before : List Pc) × (p : Pc) × (after : List Pc) × (m : WorkerPool) × (q : Pc) × (s.requests
      ≡ before ++ p ∷ after)
    × Move s.pool p m q
    × ¬ (q ≡ leaving)

≤ℤ-cases : (a b : ℤ) → (a ≤ℤ b) ⊎ (b <ℤ a)
≤ℤ-cases a b = elim (dec_le (pos_part a + neg_part b) (pos_part b + neg_part a)) [
  | yes h ↦ inl (ground arith)
  | no h ↦ inr (ground arith)
]

holder-CanGo :
    (s : System) (before : List Pc) (p : Pc) (after : List Pc)
    → s.requests ≡ before ++ p ∷ after
    → (p ≡ running) ⊎ (p ≡ entering)
    → CanGo s
holder-CanGo s before running after e h =
    (before, running, after, _, answered 200, e, finish 200, λ eq. cc)
holder-CanGo s before entering after e h = (before, entering, after, _, running, e, enter, λ eq. cc)
holder-CanGo s before arrived after e h = ground arith
holder-CanGo s before joining after e h = ground arith
holder-CanGo s before rejecting after e h = ground arith
holder-CanGo s before queued after e h = ground arith
holder-CanGo s before leaving after e h = ground arith
holder-CanGo s before (answered c) after e h = ground arith

-- Where a request waits for a slot, a slot is free or the request that has it can go on.
queued-CanGo :
    {size : ℕ} {k : ℤ} {s : System} (before after : List Pc)
    → 0 < size
    → Reach size k s
    → s.requests ≡ before ++ queued ∷ after
    → CanGo s
queued-CanGo {s} before after some_slot r e = elim (slot_or_holder some_slot r) [
  | inl free ↦ (before, queued, after, _, entering, e, get_slot free, λ eq. cc)
  | inr (b, p, a, f, h) ↦ holder-CanGo s b p a f h
]

in_flight-CanGo :
    {size : ℕ} {k : ℤ} {s : System} (before : List Pc) (p : Pc) (after : List Pc)
    → 0 < size
    → Reach size k s
    → s.requests ≡ before ++ p ∷ after
    → 0 < rank p
    → CanGo s
in_flight-CanGo {s} before arrived after some_slot r e h = elim (dec_lt s.pool.sem s.pool.size) [
  | yes free ↦ (before, arrived, after, _, running, e, take_slot free, λ eq. cc)
  | no full ↦ (before, arrived, after, _, joining, e, find_full (omega arith), λ eq. cc)
]
in_flight-CanGo {s} before joining after some_slot r e h =
    elim (≤ℤ-cases (signed32 (increment s.pool.waiting)) s.pool.max_waiting) [
      | inl room ↦ (before, joining, after, _, queued, e, join room, λ eq. cc)
      | inr full ↦ (before, joining, after, _, rejecting, e, overflow full, λ eq. cc)
    ]
in_flight-CanGo {s} before queued after some_slot r e h = queued-CanGo before after some_slot r e
in_flight-CanGo {s} before entering after some_slot r e h =
    holder-CanGo s before entering after e (inr refl)
in_flight-CanGo {s} before running after some_slot r e h =
    holder-CanGo s before running after e (inl refl)
in_flight-CanGo {s} before leaving after some_slot r e h =
    (before, leaving, after, _, answered 408, e, leave, λ eq. cc)
in_flight-CanGo {s} before rejecting after some_slot r e h =
    (before, rejecting, after, _, answered 429, e, reject, λ eq. cc)
in_flight-CanGo {s} before (answered code) after some_slot r e h = absurd (omega arith)

rank-Answered : (p : Pc) → rank p ≡ 0 → Answered p
rank-Answered (answered code) h = (code, refl)
rank-Answered arrived h = absurd (omega arith)
rank-Answered joining h = absurd (omega arith)
rank-Answered rejecting h = absurd (omega arith)
rank-Answered queued h = absurd (omega arith)
rank-Answered entering h = absurd (omega arith)
rank-Answered leaving h = absurd (omega arith)
rank-Answered running h = absurd (omega arith)

total-Answered : (ps : List Pc) → total rank ps ≡ 0 → All Answered ps
unfolding total
total-Answered [] h = tt
total-Answered (p ∷ ps) h = (rank-Answered p (omega arith), total-Answered ps (omega arith))

rank-le : (p : Pc) → rank p ≤ 5
rank-le p = ground arith

total-rank-le : (ps : List Pc) → total rank ps ≤ 5 * length ps
unfolding total
total-rank-le [] = omega arith
total-rank-le (p ∷ ps) = omega (arith, rank-le p, total-rank-le ps)

-- With at least one slot, the requests that are in the middleware come to their answers: from any
-- state that the pool reaches they make at most five accesses each while none arrives or departs,
-- and as long as one of them has no answer some request can go on without its context being done.
pub settles :
    {size : ℕ} {max_waiting : ℤ} {s t : System} {n : ℕ}
    → 0 < size
    → Reach size max_waiting s
    → Acts s n t
    → (n ≤ 5 * length s.requests) × (All Answered t.requests ⊎ CanGo t)
settles {s} {t} some_slot r acts = (
  omega (arith, Acts-rank acts, total-rank-le s.requests),
  elim (dec_lt 0 (total rank t.requests)) [
    | yes h ↦
        let (before, p, after, e, f) = split_total rank t.requests h in
        inr (in_flight-CanGo before p after some_slot (Acts-Reach acts r) e f)
    | no h ↦ inl (total-Answered t.requests (omega arith))
  ],
)
