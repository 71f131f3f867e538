-- ===== src/Api/Pool/Invariant.antt =====
-- internal/api/workerpool.go: what the channel and the counter say of the requests in flight.
use runboxd.Base.{
  ℕ, ◌+◌, ◌≤◌, ◌<◌, ◌≡◌, refl, ap, List, [], ◌∷◌, ◌++◌, arith, length, length-append,
}
use runboxd.Base.Int.{ℤ, pos_part}
use runboxd.Api.Pool.{
  WorkerPool, new_worker_pool, Pc, joining, rejecting, queued, entering, leaving, running, answered,
  Move, take_slot, find_full, join, get_slot, System, max_requests, Step, arrive, act, depart,
  start, Reach, here, next, int32,
}

-- Has a slot of the channel.
abbrev pub holds : Pc → ℕ
holds entering = 1
holds running = 1
holds _ = 0

-- Is counted in `waiting`.
abbrev pub counted : Pc → ℕ
counted rejecting = 1
counted queued = 1
counted entering = 1
counted leaving = 1
counted _ = 0

-- Was let into the queue and has not left it.
abbrev pub in_queue : Pc → ℕ
in_queue queued = 1
in_queue entering = 1
in_queue leaving = 1
in_queue _ = 0

unfoldable pub total : (Pc → ℕ) → List Pc → ℕ
total w [] = 0
total w (p ∷ ps) = w p + total w ps

pub total-append : (w : Pc → ℕ) (ps qs : List Pc) → total w (ps ++ qs) ≡ total w ps + total w qs
unfolding total
total-append w [] qs = omega arith
total-append w (p ∷ ps) qs = omega (arith, total-append w ps qs)

pub total-middle :
    (w : Pc → ℕ) (ps qs : List Pc) (p : Pc)
    → total w (ps ++ p ∷ qs) ≡ total w ps + (w p + total w qs)
unfolding total
total-middle w ps qs p = total-append w ps (p ∷ qs)

counted-le : (p : Pc) → counted p ≤ 1
counted-le p = ground arith

pub total-counted-le : (ps : List Pc) → total counted ps ≤ length ps
unfolding total
total-counted-le [] = omega arith
total-counted-le (p ∷ ps) = omega (arith, counted-le p, total-counted-le ps)

in_queue-le : (p : Pc) → in_queue p ≤ counted p
in_queue-le p = ground arith

total-in_queue-le : (ps : List Pc) → total in_queue ps ≤ total counted ps
unfolding total
total-in_queue-le [] = omega arith
total-in_queue-le (p ∷ ps) = omega (arith, in_queue-le p, total-in_queue-le ps)

pub record Inv (size : ℕ) (max_waiting : ℤ) (s : System) : Type 0 where
  pub same_size : s.pool.size ≡ size
  pub same_max : s.pool.max_waiting ≡ max_waiting
  pub few : length s.requests ≤ max_requests
  pub slots : s.pool.sem ≡ total holds s.requests
  pub capacity : s.pool.sem ≤ s.pool.size
  pub waits : s.pool.waiting ≡ total counted s.requests
  pub queue : total in_queue s.requests ≤ pos_part max_waiting

-- The same for a request that stands between the others.
record Around (size : ℕ) (max_waiting : ℤ) (m : WorkerPool) (before after : List Pc) (p : Pc)
    : Type 0 where
  same_size : m.size ≡ size
  same_max : m.max_waiting ≡ max_waiting
  few : length before + length after < max_requests
  slots : m.sem ≡ total holds before + (holds p + total holds after)
  capacity : m.sem ≤ m.size
  waits : m.waiting ≡ total counted before + (counted p + total counted after)
  queue : total in_queue before + (in_queue p + total in_queue after) ≤ pos_part max_waiting

Move-Around :
    {size : ℕ} {k : ℤ} {m m' : WorkerPool} {p q : Pc} (before after : List Pc)
    → Move m p m' q
    → Around size k m before after p
    → Around size k m' before after q
Move-Around before after (take_slot h) a = ground arith
Move-Around before after (find_full h) a = ground arith
Move-Around before after (join h) a = ground (
  arith,
  total-counted-le before,
  total-counted-le after,
  total-in_queue-le before,
  total-in_queue-le after,
)
Move-Around before after (get_slot h) a = ground arith
Move-Around before after mv a = ground (arith, total-counted-le before, total-counted-le after)

open_at :
    {size : ℕ} {k : ℤ} {s : System} {p : Pc} (before after : List Pc)
    → s.requests ≡ before ++ p ∷ after
    → Inv size k s
    → Around size k s.pool before after p
open_at {p} before after e v = record {
  same_size = v.same_size;
  same_max = v.same_max;
  few = omega (arith, ap length e, length-append before (p ∷ after), v.few);
  slots = omega (arith, ap (total holds) e, total-middle holds before after p, v.slots);
  capacity = v.capacity;
  waits = omega (arith, ap (total counted) e, total-middle counted before after p, v.waits);
  queue = omega (arith, ap (total in_queue) e, total-middle in_queue before after p, v.queue);
}

close_at :
    {size : ℕ} {k : ℤ} {m : WorkerPool} {p : Pc} (before after : List Pc)
    → Around size k m before after p
    → Inv size k (record { pool = m; requests = before ++ p ∷ after })
close_at {p} before after a = record {
  same_size = a.same_size;
  same_max = a.same_max;
  few = omega (arith, length-append before (p ∷ after), a.few);
  slots = omega (arith, total-middle holds before after p, a.slots);
  capacity = a.capacity;
  waits = omega (arith, total-middle counted before after p, a.waits);
  queue = omega (arith, total-middle in_queue before after p, a.queue);
}

-- A request that joins is not counted yet, so its increment does not overflow.
pub joining-counted :
    {size : ℕ} {k : ℤ} {s : System} (before after : List Pc)
    → s.requests ≡ before ++ joining ∷ after
    → Inv size k s
    → s.pool.waiting < max_requests
joining-counted before after e v =
    let a = open_at before after e v in
    omega (arith, a.waits, a.few, total-counted-le before, total-counted-le after)

-- A request that has its answer is in no count, so it may go.
depart-Inv :
    {size : ℕ} {k : ℤ} {m : WorkerPool} (code : ℕ) (before after : List Pc)
    → Around size k m before after (answered code)
    → Inv size k (record { pool = m; requests = before ++ after })
depart-Inv code before after a = record {
  same_size = a.same_size;
  same_max = a.same_max;
  few = omega (arith, length-append before after, a.few);
  slots = omega (arith, total-append holds before after, a.slots);
  capacity = a.capacity;
  waits = omega (arith, total-append counted before after, a.waits);
  queue = omega (arith, total-append in_queue before after, a.queue);
}

-- Every step keeps the invariant.
pub Step-Inv : {size : ℕ} {k : ℤ} {s t : System} → Step s t → Inv size k s → Inv size k t
unfolding total
Step-Inv (arrive h) v = record {
  same_size = v.same_size;
  same_max = v.same_max;
  few = h;
  slots = omega (arith, v.slots);
  capacity = v.capacity;
  waits = omega (arith, v.waits);
  queue = omega (arith, v.queue);
}
Step-Inv (act before after e mv) v =
    close_at before after (Move-Around before after mv (open_at before after e v))
Step-Inv (depart code before after e) v = depart-Inv code before after (open_at before after e v)

start-Inv : (size : ℕ) (max_waiting : ℤ) → Inv size (int32 max_waiting) (start size max_waiting)
unfolding new_worker_pool total
start-Inv size max_waiting = record {
  same_size = refl;
  same_max = refl;
  few = omega arith;
  slots = refl;
  capacity = omega arith;
  waits = refl;
  queue = omega arith;
}

-- It holds in every state that the pool can reach.
pub Reach-Inv :
    {size : ℕ} {max_waiting : ℤ} {s : System}
    → Reach size max_waiting s
    → Inv size (int32 max_waiting) s
Reach-Inv {size} {max_waiting} here = start-Inv size max_waiting
Reach-Inv (next r st) = Step-Inv st (Reach-Inv r)
