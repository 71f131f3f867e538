-- ===== src/Api/Server/Auth.antt =====
-- internal/api/auth.go: who may run code.
use mathlib.Core.Bool.{false≢true}
use runboxd.Base.{
  Bool, Option, ap, if◌then◌else◌, refl, some, sym, ◌∙◌, ◌⊎◌, Bool-cases, not, ◌||◌, ◌≡◌, ◌↔◌, inl,
  inr, Option-cases, true, false, none, ◌++◌, arith,
}
use runboxd.Base.Text.{
  Text, text_eq, text_eq_iff, is_empty, cut_prefix, cut_prefix-append, append-cut_prefix,
  trim_space,
}
use runboxd.Base.Int.{ℤ}
use runboxd.Sandbox.Types.{RunSpec}
use runboxd.Sandbox.Interface.{Sandbox}
use runboxd.Api.Execute.{Outcome, Decoded, handle_execute}
use runboxd.Api.Execute.Guards.{IsGuarded, handle_execute_run}
use runboxd.Api.Server.{
  Server, Admission, admitted, full, gave_up, pool_middleware, authorized, auth_token_prefix,
  require_auth, execute_route,
}

token_matches :
    (found token : Text)
    → (not (is_empty found || not (text_eq found token)) ≡ true)
      ↔ ((found ≡ token) × (is_empty token ≡ false))
token_matches found token = ground (arith, text_eq_iff found token)

-- A header passes exactly when it is the prefix "Bearer " and the server's token, which is not
-- empty, with spaces round the token or not.
pub authorized_iff :
    (token h : Text)
    → (authorized token h ≡ true) ↔ (
        (rest : Text) × (h ≡ auth_token_prefix ++ rest)
        × (trim_space rest ≡ token)
        × (is_empty token ≡ false))
unfolding authorized
authorized_iff token h = (
  passes,
  λ (rest, e, t, n).
      rw (e, cut_prefix-append auth_token_prefix rest, authorized)
        ((token_matches (trim_space rest) token).1 (t, n)),
)
  where
    passes :
        authorized token h ≡ true
        → (rest : Text) × (h ≡ auth_token_prefix ++ rest)
          × (trim_space rest ≡ token)
          × (is_empty token ≡ false)
    passes p = elim (Option-cases (cut_prefix h auth_token_prefix)) [
      | inl e ↦ absurd (false≢true (rw (e, authorized) at p))
      | inr (rest, e) ↦
          let (t, n) = (token_matches (trim_space rest) token).0 (rw (e, authorized) at p) in
          (rest, append-cut_prefix h auth_token_prefix e, t, n)
    ]

-- Who may run code: anyone where no token is set, and otherwise who sends the token.
abbrev pub MayRun : Text → Text → Type 0
MayRun token h =
    (is_empty token ≡ true)
    ⊎ ((rest : Text) × (h ≡ auth_token_prefix ++ rest) × (trim_space rest ≡ token))

admitted_run :
    (a : Admission) (o : Outcome) (rs : RunSpec)
    → ((pool_middleware a o).ran ≡ some rs) ↔ ((a ≡ admitted) × (o.ran ≡ some rs))
unfolding pool_middleware
admitted_run admitted o rs = (λ h. (refl, h), λ (e, h). h)
admitted_run full o rs = (λ h. absurd (cc), λ (e, h). absurd (cc))
admitted_run gave_up o rs = (λ h. absurd (cc), λ (e, h). absurd (cc))

require_auth_run :
    (token h : Text) (o : Outcome) (rs : RunSpec)
    → ((require_auth token h o).ran ≡ some rs) ↔ ((authorized token h ≡ true) × (o.ran ≡ some rs))
unfolding require_auth
require_auth_run token h o rs = ground arith

MayRun-authorized :
    (token h : Text) → is_empty token ≡ false → (authorized token h ≡ true) ↔ MayRun token h
MayRun-authorized token h set = (
  λ passed. let (rest, e, t, n) = (authorized_iff token h).0 passed in inr (rest, e, t),
  λ m. elim m [
    | inl unset ↦ absurd (false≢true (sym set ∙ unset))
    | inr (rest, e, t) ↦ (authorized_iff token h).1 (rest, e, t, set)
  ],
)

-- `POST /execute` asks the backend for the run `rs` exactly where the header has the token of the server or
-- the server has none, the pool admits the request, and the request passes every guard of the handler
-- and means `rs`.
pub execute_route_run :
    (s : Server) (sb : Sandbox) (elapsed : ℤ) (h : Text) (a : Admission) (d : Decoded)
    (rs : RunSpec)
    → ((execute_route s h a (handle_execute sb elapsed d)).ran ≡ some rs)
      ↔ (MayRun s.auth_token h × (a ≡ admitted) × IsGuarded sb d rs)
unfolding execute_route
execute_route_run s sb elapsed h a d rs =
    let handled = handle_execute sb elapsed d in
    let guarded = handle_execute_run sb elapsed d rs in
    let pooled = admitted_run a handled rs in
    let checked = require_auth_run s.auth_token h (pool_middleware a handled) rs in
    let route : Bool → Option RunSpec = λ b.
      (if b
        then pool_middleware a handled
        else require_auth s.auth_token h (pool_middleware a handled)).ran in
    elim (Bool-cases (is_empty s.auth_token)) [
      | inl unset ↦
          let same : (execute_route s h a handled).ran ≡ (pool_middleware a handled).ran =
            ap route unset in
          (
            λ ran. let (e, r) = pooled.0 (sym same ∙ ran) in (inl unset, e, guarded.0 r),
            λ (m, e, g). same ∙ pooled.1 (e, guarded.1 g),
          )
      | inr set ↦
          let same : (execute_route s h a handled).ran
              ≡ (require_auth s.auth_token h (pool_middleware a handled)).ran =
            ap route set in
          let may = MayRun-authorized s.auth_token h set in
          (
            λ ran.
                let (passed, r) = checked.0 (sym same ∙ ran) in
                let (e, r') = pooled.0 r in (may.0 passed, e, guarded.0 r'),
            λ (m, e, g). same ∙ checked.1 (may.1 m, pooled.1 (e, guarded.1 g)),
          )
    ]

-- With a token set, a request without it leads to no run, however the pool would have treated it,
-- and is answered with 401.
pub unauthorized_runs_nothing :
    (s : Server) (h : Text) (a : Admission) (handler : Outcome)
    → is_empty s.auth_token ≡ false
    → authorized s.auth_token h ≡ false
    → ((execute_route s h a handler).ran ≡ none)
      × ((execute_route s h a handler).response.code ≡ 401)
unfolding execute_route require_auth
unauthorized_runs_nothing s h a handler set bad = ground arith
