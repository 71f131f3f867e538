-- ===== src/Config/Daemon/Closes.antt =====
-- cmd/runboxd/main.go: the order in which the daemon opens, uses and closes its backend.
use runboxd.Base.{◌≡◌, Bool, true, false, not, ◌&&◌, none, List, [], ◌∷◌}
use runboxd.Base.Result.{Result}
use runboxd.Config.{Config}
use runboxd.Config.Daemon.{
  Call, make_pool, open_backend, start_reaper, reap_orphans, cancel_reaper, await_reaper, listen,
  shut_down, close_server, close_backend, Outside, Ended,
}

-- The backend is opened once at most, the reaper and the listener run only while it is open, and it is
-- closed at the end, when the reaper has ended.
abbrev pub orderly : (is_open is_reaping : Bool) → List Call → Bool
orderly is_open is_reaping [] = not is_open && not is_reaping
orderly is_open is_reaping (make_pool size max_waiting ∷ cs) = orderly is_open is_reaping cs
orderly is_open is_reaping (open_backend backend ∷ cs) = not is_open && orderly true is_reaping cs
orderly is_open is_reaping (start_reaper ∷ cs) =
    (is_open && not is_reaping) && orderly is_open true cs
orderly is_open is_reaping (reap_orphans ∷ cs) = is_open && orderly is_open is_reaping cs
orderly is_open is_reaping (cancel_reaper ∷ cs) = is_reaping && orderly is_open is_reaping cs
orderly is_open is_reaping (await_reaper ∷ cs) = is_reaping && orderly is_open false cs
orderly is_open is_reaping (listen port ∷ cs) = is_open && orderly is_open is_reaping cs
orderly is_open is_reaping (shut_down ∷ cs) = is_open && orderly is_open is_reaping cs
orderly is_open is_reaping (close_server ∷ cs) = is_open && orderly is_open is_reaping cs
orderly is_open is_reaping (close_backend ∷ cs) =
    (is_open && not is_reaping) && orderly false false cs

-- What is left where the backend was opened: the order, and no error only after an orderly shutdown.
abbrev IsOrderly : Outside → Ended → Type 0
IsOrderly o e =
    (orderly false false e.calls ≡ true)
    × (e.error ≡ none → (o.listen_fails ≡ false) × (o.shuts_down ≡ true))
