-- ===== src/Config/Load.antt =====
-- internal/config/config.go: what a configuration that loads promises to the worker pool and to the
-- server that cmd/runboxd/main.go makes of it.
use runboxd.Base.{
  ℕ, ◌^◌, ◌≤◌, ◌<◌, ◌≡◌, refl, ap, ◌∙◌, subst, Bool, true, false, not, ◌&&◌, Option, none, some,
  arith, if_both, ◌%◌, ltb, ge→ltb,
}
use mathlib.Core.Bool.{false≢true}
use native.Mathlib.Nat.{mod-eq_of_lt}
use runboxd.Base.Int.{ℤ, pos, pos_part, ◌≤ℤ◌, ltb_ℤ, ltb_ℤ-false}
use runboxd.Base.Text.{Text, text, text_eq, text_eq_iff, is_empty}
use runboxd.Base.Map.{Map}
use runboxd.Base.Result.{ok, err}
use runboxd.Sandbox.Interface.{Sandbox}
use runboxd.Api.Execute.{Outcome}
use runboxd.Api.Server.{new_server, Admission, authorized, execute_route}
use runboxd.Api.Server.Auth.{unauthorized_runs_nothing}
use runboxd.Api.Pool.{int32, System, Reach}
use runboxd.Api.Pool.Invariant.{total, in_queue}
use runboxd.Api.Pool.Safety.{bounded}
use runboxd.Config.{
  Config, getenv, get_env_or_default, Atoi, at_least, parse_int_env_or_default, from_env, load,
  auth_token_required,
}

at_least-bound : (d m : ℤ) (value : Option ℤ) → m ≤ℤ d → m ≤ℤ at_least d m value
at_least-bound d m none h = h
at_least-bound d m (some value) h =
    if_both (λ v. m ≤ℤ v) (ltb_ℤ value m) d value (λ below. h) (λ above. ltb_ℤ-false value m above)

module _ (atoi : Atoi) (env : Map Text) where
  parse_int-bound : (key : Text) (d m : ℤ) → m ≤ℤ d → m ≤ℤ parse_int_env_or_default atoi env key d m
  unfolding parse_int_env_or_default
  parse_int-bound key d m h =
      if_both (λ v. m ≤ℤ v) (is_empty (getenv env key)) d (at_least d m (atoi (getenv env key)))
        (λ unset. h) (λ set. at_least-bound d m (atoi (getenv env key)) h)

  load-from_env :
      (num_cpu : ℤ) (cfg : Config)
      → load atoi num_cpu env ≡ ok cfg
      → (from_env atoi num_cpu env ≡ cfg)
        × ((is_empty (from_env atoi num_cpu env).auth_token
              && not (from_env atoi num_cpu env).auth_allow_unauthenticated)
            ≡ false)
  unfolding load
  load-from_env num_cpu cfg loaded =
      let started = from_env atoi num_cpu env in
      if_both
        (λ r.
          r ≡ ok cfg
          → (started ≡ cfg)
            × ((is_empty started.auth_token && not started.auth_allow_unauthenticated) ≡ false))
        (is_empty started.auth_token && not started.auth_allow_unauthenticated)
        (err auth_token_required) (ok started) (λ unguarded failed. absurd (cc))
        (λ guarded same. (cc, guarded)) loaded

  allowed_by_env :
      (key : Text)
      → text_eq (get_env_or_default env key (text "false")) (text "true") ≡ true
      → getenv env key ≡ text "true"
  unfolding get_env_or_default text_eq
  allowed_by_env key h =
      if_both (λ v. text_eq v (text "true") ≡ true → getenv env key ≡ text "true")
        (is_empty (getenv env key)) (text "false") (getenv env key)
        (λ unset same. absurd (false≢true same))
        (λ set. (text_eq_iff (getenv env key) (text "true")).0) h

-- A configuration that loads has a pool of at least one worker, given a CPU, a queue that is not
-- negative, and a token that is not empty unless AUTH_ALLOW_UNAUTHENTICATED is exactly "true".
pub load-IsGuarded :
    (atoi : Atoi) (env : Map Text) (num_cpu : ℤ) (cfg : Config)
    → pos 1 ≤ℤ num_cpu
    → load atoi num_cpu env ≡ ok cfg
    → (pos 1 ≤ℤ cfg.worker_pool_size)
      × (pos 0 ≤ℤ cfg.max_queue_size)
      × (is_empty cfg.auth_token ≡ true
          → getenv env (text "AUTH_ALLOW_UNAUTHENTICATED") ≡ text "true")
unfolding from_env
load-IsGuarded atoi env num_cpu cfg cpus loaded =
    let (same, guarded) = load-from_env atoi env num_cpu cfg loaded in
    let not_negative : pos 0 ≤ℤ num_cpu = omega (arith, cpus) in
    (
      subst (λ (c : Config). pos 1 ≤ℤ c.worker_pool_size) same
          (parse_int-bound atoi env (text "WORKER_POOL_SIZE") num_cpu (pos 1) cpus),
      subst (λ (c : Config). pos 0 ≤ℤ c.max_queue_size) same
          (parse_int-bound atoi env (text "MAX_QUEUE_SIZE") num_cpu (pos 0) not_negative),
      λ no_token. allowed_by_env atoi env (text "AUTH_ALLOW_UNAUTHENTICATED") (
          needs_flag (is_empty (from_env atoi num_cpu env).auth_token)
            (from_env atoi num_cpu env).auth_allow_unauthenticated
            (ap (λ (c : Config). is_empty c.auth_token) same ∙ no_token) guarded),
    )
  where
    needs_flag : (a b : Bool) → a ≡ true → (a && not b) ≡ false → b ≡ true
    needs_flag a b e f = ground arith

new_server-token : (t : Text) (sb : Sandbox) → (new_server t sb).auth_token ≡ t
unfolding new_server
new_server-token t sb = ground arith

-- Unless AUTH_ALLOW_UNAUTHENTICATED is exactly "true", the server that is made with the token of a
-- configuration that loads answers an execute request without this token with 401 and runs nothing.
pub load-unauthorized :
    (atoi : Atoi) (env : Map Text) (num_cpu : ℤ) (cfg : Config) (sb : Sandbox) (h : Text)
    (a : Admission) (handler : Outcome)
    → pos 1 ≤ℤ num_cpu
    → load atoi num_cpu env ≡ ok cfg
    → text_eq (getenv env (text "AUTH_ALLOW_UNAUTHENTICATED")) (text "true") ≡ false
    → authorized cfg.auth_token h ≡ false
    → ((execute_route (new_server cfg.auth_token sb) h a handler).ran ≡ none)
      × ((execute_route (new_server cfg.auth_token sb) h a handler).response.code ≡ 401)
load-unauthorized atoi env num_cpu cfg sb h a handler cpus loaded closed bad =
    let (workers, queue, flag) = load-IsGuarded atoi env num_cpu cfg cpus loaded in
    let token = new_server-token cfg.auth_token sb in
    let set : is_empty cfg.auth_token ≡ false =
      ground
        (arith, flag, text_eq_iff (getenv env (text "AUTH_ALLOW_UNAUTHENTICATED")) (text "true")) in
    unauthorized_runs_nothing (new_server cfg.auth_token sb) h a handler (ap is_empty token ∙ set)
      (ap (λ t. authorized t h) token ∙ bad)

int32-no_places : (q : ℕ) → 2 ^ 31 ≤ q → q < 2 ^ 32 → pos_part (int32 (pos q)) ≡ 0
int32-no_places q low high =
    let wrapped : q % 2 ^ 32 ≡ q = mod-eq_of_lt {n = q} {m = 2 ^ 32} high in
    let large : ltb q (2 ^ 31) ≡ false = ge→ltb q (2 ^ 31) low in rw (wrapped, large) refl

-- A MAX_QUEUE_SIZE from 2^31 up to 2^32 - 1 is accepted as it is, and in the pool that is made of it,
-- whatever its number of slots, no request ever waits in the queue, under every interleaving.
pub overlarge_queue :
    (atoi : Atoi) (env : Map Text) (num_cpu : ℤ) (value : Text) (q size : ℕ) {s : System}
    → getenv env (text "MAX_QUEUE_SIZE") ≡ value
    → is_empty value ≡ false
    → atoi value ≡ some (pos q)
    → 2 ^ 31 ≤ q
    → q < 2 ^ 32
    → Reach size (from_env atoi num_cpu env).max_queue_size s
    → ((from_env atoi num_cpu env).max_queue_size ≡ pos q) × (total in_queue s.requests ≡ 0)
unfolding from_env parse_int_env_or_default
overlarge_queue atoi env num_cpu value q size {s} set some_value parsed low high reached =
    let accepted : parse_int_env_or_default atoi env (text "MAX_QUEUE_SIZE") num_cpu (pos 0)
        ≡ pos q =
      rw (set, some_value, parsed) (not_below q) in
    let (slots, places) = bounded reached in
    let none_left : pos_part (int32 (from_env atoi num_cpu env).max_queue_size) ≡ 0 =
      ap (λ v. pos_part (int32 v)) accepted ∙ int32-no_places q low high in
    (accepted, omega (arith, places, none_left))
  where
    not_below : (n : ℕ) → at_least num_cpu (pos 0) (some (pos n)) ≡ pos n
    not_below n = ground arith
