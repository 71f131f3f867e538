-- ===== src/Api/Pool/Safety.antt =====
-- internal/api/workerpool.go: the bounds that the pool promises, and that it loses no slot.
use runboxd.Base.{
  ℕ, suc, ◌≤◌, ◌<◌, ◌≡◌, refl, ap, subst, ◌⊎◌, inl, inr, List, [], ◌∷◌, ◌++◌, arith, All,
}
use native.Mathlib.Decide.{dec_lt}
use runboxd.Base.Int.{ℤ, pos, pos_part, neg_part, ◌≤ℤ◌, ◌<ℤ◌}
use runboxd.Api.Pool.{
  WorkerPool, Pc, joining, rejecting, queued, entering, running, Move, join, overflow, System,
  max_requests, Reach, int32, signed32, increment,
}
use runboxd.Api.Pool.Invariant.{holds, counted, in_queue, total, Reach-Inv, joining-counted}

abbrev pub is_running : Pc → ℕ
is_running running = 1
is_running _ = 0

is_running-le : (p : Pc) → is_running p ≤ holds p
is_running-le p = ground arith

total_mono : (v w : Pc → ℕ) → ((p : Pc) → v p ≤ w p) → (ps : List Pc) → total v ps ≤ total w ps
unfolding total
total_mono v w h [] = omega arith
total_mono v w h (p ∷ ps) = omega (arith, h p, total_mono v w h ps)

-- Never more requests run at once than the pool has slots, and never more wait in its queue than
-- the configured number (none where that is negative as an int32).
pub bounded :
    {size : ℕ} {max_waiting : ℤ} {s : System}
    → Reach size max_waiting s
    → (total is_running s.requests ≤ size)
      × (total in_queue s.requests ≤ pos_part (int32 max_waiting))
bounded {s} r =
    let v = Reach-Inv r in
    (
      omega (
        arith,
        total_mono is_running holds is_running-le s.requests,
        v.slots,
        v.capacity,
        v.same_size,
      ),
      v.queue,
    )

quiet_total : (w : Pc → ℕ) (ps : List Pc) → All (λ p. w p ≡ 0) ps → total w ps ≡ 0
unfolding total
quiet_total w [] h = refl
quiet_total w (p ∷ ps) h = omega (arith, h.0, quiet_total w ps h.1)

-- No slot and no place in the queue is lost: whatever the requests went through, once none of them
-- runs or waits the pool is as it was made.
pub nothing_lost :
    {size : ℕ} {max_waiting : ℤ} {s : System}
    → Reach size max_waiting s
    → All (λ p. holds p ≡ 0) s.requests
    → All (λ p. counted p ≡ 0) s.requests
    → (s.pool.sem ≡ 0) × (s.pool.waiting ≡ 0)
nothing_lost {s} r free idle =
    let v = Reach-Inv r in
    (
      omega (arith, v.slots, quiet_total holds s.requests free),
      omega (arith, v.waits, quiet_total counted s.requests idle),
    )

increment_signed : (w : ℕ) → w < max_requests → signed32 (increment w) ≡ pos (suc w)
increment_signed w h = ground arith

decide :
    {p m : WorkerPool} {q : Pc} {c : ℕ} {k : ℤ}
    → Move p joining m q
    → p.waiting ≡ c
    → p.max_waiting ≡ k
    → p.waiting < max_requests
    → ((q ≡ queued) × (pos (suc c) ≤ℤ k)) ⊎ ((q ≡ rejecting) × (k <ℤ pos (suc c)))
decide {p} (join h) e f few = inl (
  refl,
  omega (
    arith,
    subst (λ x. x ≤ℤ p.max_waiting) (increment_signed p.waiting few) h,
    ap pos_part f,
    ap neg_part f,
  ),
)
decide {p} (overflow h) e f few = inr (
  refl,
  omega (
    arith,
    subst (λ x. p.max_waiting <ℤ x) (increment_signed p.waiting few) h,
    ap pos_part f,
    ap neg_part f,
  ),
)

-- A request that finds no slot is let into the queue where fewer requests than the configured
-- number are counted as waiting, and is rejected otherwise.
pub join_decided :
    {size : ℕ} {max_waiting : ℤ} {s : System} {m : WorkerPool} {q : Pc} (before after : List Pc)
    → Reach size max_waiting s
    → s.requests ≡ before ++ joining ∷ after
    → Move s.pool joining m q
    → ((q ≡ queued) × (pos (suc (total counted s.requests)) ≤ℤ int32 max_waiting))
      ⊎ ((q ≡ rejecting) × (int32 max_waiting <ℤ pos (suc (total counted s.requests))))
join_decided before after r e mv =
    let v = Reach-Inv r in decide mv v.waits v.same_max (joining-counted before after e v)

pub split_total :
    (w : Pc → ℕ) (ps : List Pc)
    → 0 < total w ps
    → (before : List Pc) × (p : Pc) × (after : List Pc) × (ps ≡ before ++ p ∷ after) × (0 < w p)
unfolding total
split_total w [] h = absurd (omega arith)
split_total w (p ∷ ps) h = elim (dec_lt 0 (w p)) [
  | yes here ↦ ([], p, ps, refl, here)
  | no other ↦
      let (before, q, after, e, found) = split_total w ps (omega arith) in
      (p ∷ before, q, after, ap (◌∷◌ p) e, found)
]

-- The pool never comes to a stop with its slots gone: either a slot is free, so that a request that
-- waits can take it, or some request in flight has one and will give it back.
pub slot_or_holder :
    {size : ℕ} {max_waiting : ℤ} {s : System}
    → 0 < size
    → Reach size max_waiting s
    → (s.pool.sem < s.pool.size)
      ⊎ ((before : List Pc) × (p : Pc) × (after : List Pc) × (s.requests ≡ before ++ p ∷ after)
          × ((p ≡ running) ⊎ (p ≡ entering)))
slot_or_holder {s} pos_size r = elim (dec_lt s.pool.sem s.pool.size) [
  | yes free ↦ inl free
  | no taken ↦
      let v = Reach-Inv r in
      let (before, p, after, e, h) =
        split_total holds s.requests (omega (arith, v.slots, v.same_size)) in
      inr (before, p, after, e, ground arith)
]
