-- ===== src/Config/Daemon.antt =====
-- cmd/runboxd/main.go: `run`, as the calls that it makes and the error it returns, with `reapLoop`. The
-- reaper and the listener run beside `run`; of them only their start and their end are calls.
pub mod Closes
use runboxd.Base.{Bool, true, false, not, Option, none, some, List, [], ◌∷◌, ◌++◌, if◌then◌else◌}
use runboxd.Base.Int.{ℤ}
use runboxd.Base.Text.{Text}
use runboxd.Base.Result.{Result, ok, err}
use runboxd.Config.{Config, LoadError, SandboxConfig, BackendError, get_sandbox_config}

pub data Call : Type 0 where
  make_pool : (size max_waiting : ℤ) → Call
  open_backend : SandboxConfig → Call
  start_reaper reap_orphans cancel_reaper await_reaper : Call
  listen : (port : Text) → Call
  shut_down close_server close_backend : Call

pub data RunError : Type 0 where
  not_configured : LoadError → RunError
  not_supported : BackendError → RunError
  not_opened listen_failed shutdown_failed : RunError

-- What the outside does: whether the backend opens and has a reaper, whether the listener fails before a
-- signal comes, and whether the shutdown ends in time.
pub record Outside : Type 0 where
  pub opens : Bool
  pub has_reaper : Bool
  pub listen_fails : Bool
  pub shuts_down : Bool

pub record Ended : Type 0 where
  pub error : Option RunError
  pub calls : List Call

abbrev pub stopped : RunError → List Call → Ended
stopped e calls = record { error = some e; calls = calls }

-- From the listener to the end, without what is deferred.
unfoldable pub serve : Outside → Config → Ended
serve o cfg =
    if o.listen_fails
    then stopped listen_failed (listen cfg.port ∷ [])
    else if o.shuts_down
    then record { error = none; calls = listen cfg.port ∷ shut_down ∷ [] }
    else stopped shutdown_failed (listen cfg.port ∷ shut_down ∷ close_server ∷ [])

-- The calls between two others, the second of which is deferred.
abbrev pub between : List Call → Ended → List Call → Ended
between before e deferred = record { error = e.error; calls = before ++ (e.calls ++ deferred) }

unfoldable pub with_reaper : Outside → Config → Ended
with_reaper o cfg =
    if o.has_reaper
    then between (start_reaper ∷ reap_orphans ∷ []) (serve o cfg)
        (cancel_reaper ∷ await_reaper ∷ [])
    else serve o cfg

unfoldable pub run_backend : Outside → Config → SandboxConfig → Ended
run_backend o cfg backend =
    if o.opens
    then between (open_backend backend ∷ []) (with_reaper o cfg) (close_backend ∷ [])
    else stopped not_opened (open_backend backend ∷ [])

abbrev pub with_backend : Outside → Config → Result BackendError SandboxConfig → Ended
with_backend o cfg (err e) = stopped (not_supported e) []
with_backend o cfg (ok backend) = run_backend o cfg backend

abbrev pub with_config : Outside → Result LoadError Config → Ended
with_config o (err e) = stopped (not_configured e) []
with_config o (ok cfg) =
    between (make_pool cfg.worker_pool_size cfg.max_queue_size ∷ [])
      (with_backend o cfg (get_sandbox_config cfg)) []

-- `loaded` is the result of `config.Load`.
unfoldable pub run : (loaded : Result LoadError Config) → Outside → Ended
run loaded o = with_config o loaded

-- The loop of the reaper: what its `select` finds, one after the other.
pub data Wakeup : Type 0 where
  done tick : Wakeup

unfoldable pub reap_loop : List Wakeup → List Call
reap_loop [] = []
reap_loop (done ∷ ws) = []
reap_loop (tick ∷ ws) = reap_orphans ∷ reap_loop ws
