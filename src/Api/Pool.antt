-- ===== src/Api/Pool.antt =====
-- internal/api/workerpool.go: the worker pool, and `Middleware` run by any number of requests at
-- once, interleaved at its accesses to the channel `sem` and to the counter `waiting`.
pub mod Invariant
pub mod Safety
pub mod Settles
use runboxd.Base.{
  ℕ, suc, ◌+◌, ◌-◌, ◌%◌, ◌^◌, ◌≤◌, ◌<◌, ◌≡◌, List, [], ◌∷◌, ◌++◌, ltb, if◌then◌else◌, length,
}
use runboxd.Base.Int.{ℤ, pos, negsuc, ◌≤ℤ◌, ◌<ℤ◌}

-- An int32 is kept as its 32 bits.
abbrev pub signed32 : ℕ → ℤ
signed32 w = if ltb w (2 ^ 31) then pos w else negsuc (2 ^ 32 - 1 - w)

-- int32(n)
abbrev pub int32 : ℤ → ℤ
int32 (pos n) = signed32 (n % 2 ^ 32)
int32 (negsuc n) = signed32 (2 ^ 32 - 1 - n % 2 ^ 32)

-- `waiting.Add(1)` and `waiting.Add(-1)`
abbrev pub increment : ℕ → ℕ
increment w = (w + 1) % 2 ^ 32

abbrev pub decrement : ℕ → ℕ
decrement w = (w + 2 ^ 32 - 1) % 2 ^ 32

-- `sem` is a channel of capacity `size`; of its contents only the number counts.
pub record WorkerPool : Type 0 where
  pub size : ℕ
  pub sem : ℕ
  pub waiting : ℕ
  pub max_waiting : ℤ

unfoldable pub new_worker_pool : ℕ → ℤ → WorkerPool
new_worker_pool size max_waiting = record {
  size = size;
  sem = 0;
  waiting = 0;
  max_waiting = int32 max_waiting;
}

-- Where a request stands in the middleware.
pub data Pc : Type 0 where
  arrived : Pc  -- before the first `select`
  joining : Pc  -- in its `default`, before `waiting.Add(1)`
  rejecting : Pc  -- counted, the queue was full, before `waiting.Add(-1)`
  queued : Pc  -- counted, in the second `select`
  entering : Pc  -- has a slot, before `waiting.Add(-1)`
  leaving : Pc  -- its context is done, before `waiting.Add(-1)`
  running : Pc  -- in `next.ServeHTTP`, has a slot
  answered : (code : ℕ) → Pc

-- One step of one request. A context may be done at any time, and `next` takes as long as it likes.
pub data Move (m : WorkerPool) : Pc → WorkerPool → Pc → Type 0 where
  take_slot : m.sem < m.size → Move m arrived (record m { sem = m.sem + 1 }) running
  find_full : m.size ≤ m.sem → Move m arrived m joining
  join :
      signed32 (increment m.waiting) ≤ℤ m.max_waiting
      → Move m joining (record m { waiting = increment m.waiting }) queued
  overflow :
      m.max_waiting <ℤ signed32 (increment m.waiting)
      → Move m joining (record m { waiting = increment m.waiting }) rejecting
  reject : Move m rejecting (record m { waiting = decrement m.waiting }) (answered 429)
  get_slot : m.sem < m.size → Move m queued (record m { sem = m.sem + 1 }) entering
  enter : Move m entering (record m { waiting = decrement m.waiting }) running
  give_up : Move m queued m leaving
  leave : Move m leaving (record m { waiting = decrement m.waiting }) (answered 408)
  finish : (code : ℕ) → Move m running (record m { sem = m.sem - 1 }) (answered code)

pub record System : Type 0 where
  pub pool : WorkerPool
  pub requests : List Pc

-- More requests at once than an int32 counts do not fit into memory.
abbrev pub max_requests : ℕ
max_requests = 2147483647

pub data Step (s : System) : System → Type 0 where
  arrive :
      length s.requests < max_requests
      → Step s (record { pool = s.pool; requests = arrived ∷ s.requests })
  act :
      {m : WorkerPool} {p q : Pc} (before after : List Pc)
      → s.requests ≡ before ++ p ∷ after
      → Move s.pool p m q
      → Step s (record { pool = m; requests = before ++ q ∷ after })
  depart :
      (code : ℕ) (before after : List Pc)
      → s.requests ≡ before ++ answered code ∷ after
      → Step s (record { pool = s.pool; requests = before ++ after })

abbrev pub start : ℕ → ℤ → System
start size max_waiting = record { pool = new_worker_pool size max_waiting; requests = [] }

pub data Reach (size : ℕ) (max_waiting : ℤ) : System → Type 0 where
  here : Reach size max_waiting (start size max_waiting)
  next : {s t : System} → Reach size max_waiting s → Step s t → Reach size max_waiting t
