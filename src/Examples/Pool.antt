-- ===== src/Examples/Pool.antt =====
-- internal/api/workerpool.go: a pool with one slot.
use runboxd.Base.{ℕ, ◌≤◌, ◌≡◌, refl, ◌⊎◌, [], ◌∷◌, ◌*◌, length, All, arith}
use runboxd.Base.Int.{pos, pos_part}
use runboxd.Api.Pool.{
  WorkerPool, new_worker_pool, System, Reach, here, next, arrive, act, joining, running, answered,
  take_slot, find_full, finish, int32,
}
use runboxd.Api.Pool.Invariant.{total, in_queue}
use runboxd.Api.Pool.Safety.{is_running, bounded, nothing_lost}
use runboxd.Api.Pool.Settles.{more, rest, Answered, CanGo, settles}

abbrev pool_with : ℕ → ℕ → WorkerPool
pool_with sem waiting = record { size = 1; sem = sem; waiting = waiting; max_waiting = pos 5 }

abbrev one_running : System
one_running = record { pool = pool_with 1 0; requests = running ∷ [] }

abbrev one_running_reached : Reach 1 (pos 5) one_running
unfolding new_worker_pool
one_running_reached =
    next (next here (arrive (omega arith))) (act [] [] refl (take_slot (omega arith)))

bounded_example :
    (total is_running (running ∷ []) ≤ 1)
    × (total in_queue (running ∷ []) ≤ pos_part (int32 (pos 5)))
bounded_example = bounded one_running_reached

abbrev one_answered : System
one_answered = record { pool = pool_with 0 0; requests = answered 200 ∷ [] }

abbrev one_answered_reached : Reach 1 (pos 5) one_answered
one_answered_reached = next one_running_reached (act [] [] refl (finish 200))

nothing_lost_example : (one_answered.pool.sem ≡ 0) × (one_answered.pool.waiting ≡ 0)
nothing_lost_example = nothing_lost one_answered_reached (refl, tt) (refl, tt)

abbrev one_joining : System
one_joining = record { pool = pool_with 1 0; requests = joining ∷ running ∷ [] }

abbrev one_joining_reached : Reach 1 (pos 5) one_joining
one_joining_reached =
    next (next one_running_reached (arrive (omega arith)))
      (act [] (running ∷ []) refl (find_full (omega arith)))

abbrev one_more_answered : System
one_more_answered = record { pool = pool_with 0 0; requests = joining ∷ answered 200 ∷ [] }

settles_example :
    (1 ≤ 5 * length one_joining.requests)
    × (All Answered one_more_answered.requests ⊎ CanGo one_more_answered)
settles_example =
    settles (omega arith) one_joining_reached (more (joining ∷ []) [] rest refl (finish 200))
