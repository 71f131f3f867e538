-- ===== src/Api/Execute/Guards.antt =====
-- internal/api/api.go: what `handleExecute` has checked by the time it calls the backend, and how
-- it answers.
use runboxd.Base.{◌≡◌, refl, sym, ap, subst, ◌⊎◌, inl, inr, ◌↔◌, ◌≢◌, Option, none, some, arith}
use runboxd.Base.Int.{ℤ}
use runboxd.Sandbox.Types.{RunSpec, RunResult, LangSpec}
use runboxd.Sandbox.Interface.{Sandbox, SandboxError, found, refused, Lookup}
use runboxd.Api.Execute.Answer.{Answers, to_response-Answers}
use runboxd.Api.Types.{
  ExecuteResponse, ExecuteRequest, ApiError, Result, ok, err, executed, checked, Message, ◌>>=◌,
}
use runboxd.Api.Validation.{validate_execute_request_basic, validate_limits}
use runboxd.Api.Validation.Accepts.{IsChecked, trimmed, validate_execute_request_basic_iff}
use runboxd.Api.Execute.{
  Decoded, decoded, read_body, map_run_error, or_map, to_run_spec, to_response, prepare,
  handle_execute,
}

-- A run that the handler may ask for: it stems from a request that decodes, passes the first
-- checks, names a language and version that the backend has, and keeps to their limits.
pub record IsGuarded (sb : Sandbox) (d : Decoded) (rs : RunSpec) : Type 0 where
  pub req : ExecuteRequest
  pub ls : LangSpec
  pub decodes : d ≡ decoded req
  pub is_checked : IsChecked (trimmed req)
  pub supported : sb.lang_spec (trimmed req).language (trimmed req).version ≡ found ls
  pub in_limits : validate_limits (trimmed req) ls.limits ≡ none
  pub spec_eq : rs ≡ to_run_spec (trimmed req)

-- A chain of checks that succeeds went through its first one.
>>=-eq-ok {ℓ κ} :
    {A : Type ℓ} {B : Type κ} (first : Result A) (next : A → Result B) {out : B}
    → (first >>= next) ≡ ok out
    → (mid : A) × (first ≡ ok mid) × (next mid ≡ ok out)
>>=-eq-ok (err stop) next eq = cc
>>=-eq-ok (ok mid) next eq = (mid, refl, eq)

read_body-ok : (d : Decoded) (req : ExecuteRequest) → read_body d ≡ ok req → d ≡ decoded req
unfolding read_body
read_body-ok d req h = ground arith

Lookup-cases {ℓ} :
    {A : Type ℓ} (l : Lookup A) → ((e : SandboxError) × (l ≡ refused e)) ⊎ ((a : A) × (l ≡ found a))
Lookup-cases (refused e) = inl (e, refl)
Lookup-cases (found a) = inr (a, refl)

or_map-ok {ℓ} : {A : Type ℓ} (l : Lookup A) (a : A) → or_map l ≡ ok a → l ≡ found a
or_map-ok (found b) a h = cc
or_map-ok (refused e) a h = cc

checked-ok {ℓ} :
    {A : Type ℓ} (a b : A) (m : Option Message) → checked a m ≡ ok b → (m ≡ none) × (b ≡ a)
checked-ok a b none h = (refl, cc)
checked-ok a b (some m) h = cc

-- The guards of `prepare`, each passed, give the record.
guarded :
    (sb : Sandbox) (d : Decoded) (rs : RunSpec) (req r : ExecuteRequest) (ls : LangSpec)
    → r ≡ trimmed req
    → d ≡ decoded req
    → IsChecked r
    → sb.lang_spec r.language r.version ≡ found ls
    → (validate_limits r ls.limits ≡ none) × (rs ≡ to_run_spec r)
    → IsGuarded sb d rs
guarded sb d rs req r ls e decodes is_checked supported last = record {
  req = req;
  ls = ls;
  decodes = decodes;
  is_checked = subst IsChecked e is_checked;
  supported =
      subst (λ (x : ExecuteRequest). sb.lang_spec x.language x.version ≡ found ls) e supported;
  in_limits = subst (λ (x : ExecuteRequest). validate_limits x ls.limits ≡ none) e last.0;
  spec_eq = subst (λ x. rs ≡ to_run_spec x) e last.1;
}

prepare-IsGuarded :
    (sb : Sandbox) (d : Decoded) (rs : RunSpec) → prepare sb d ≡ ok rs → IsGuarded sb d rs
unfolding prepare
prepare-IsGuarded sb d rs h =
    let (req, read, h1) = >>=-eq-ok (read_body d) _ h in
    let (r, basic, h2) = >>=-eq-ok (validate_execute_request_basic req) _ h1 in
    let (ls, spec, h3) = >>=-eq-ok (or_map (sb.lang_spec r.language r.version)) _ h2 in
    let (e, checks) = (validate_execute_request_basic_iff req r).0 basic in
    guarded sb d rs req r ls e (read_body-ok d req read) checks (or_map-ok _ ls spec)
      (checked-ok (to_run_spec r) rs (validate_limits r ls.limits) h3)

IsGuarded-prepare :
    (sb : Sandbox) (d : Decoded) (rs : RunSpec) → IsGuarded sb d rs → prepare sb d ≡ ok rs
unfolding prepare read_body
IsGuarded-prepare sb d rs g =
    rw
      (
        g.decodes,
        (validate_execute_request_basic_iff g.req (trimmed g.req)).1 (refl, g.is_checked),
        g.supported,
        g.in_limits,
      )
      (ap ok (sym g.spec_eq))

-- No error is answered with 200.
abbrev NotOk {ℓ} : {A : Type ℓ} → Result A → Type ℓ
NotOk m = (e : ApiError) → m ≡ err e → e.status ≢ 200

NotOk-bind {ℓ} :
    {A B : Type ℓ} (m : Result A) (f : A → Result B)
    → NotOk m
    → ((a : A) → NotOk (f a))
    → NotOk (m >>= f)
NotOk-bind (ok a) f h k e' p = k a e' p
NotOk-bind (err e) f h k e' p = h e' (cc)

map_run_error-status : (e : SandboxError) → (map_run_error e).status ≢ 200
unfolding map_run_error
map_run_error-status e = ground arith

or_map-NotOk {ℓ} : {A : Type ℓ} (l : Lookup A) → NotOk (or_map l)
or_map-NotOk (found a) e p = cc
or_map-NotOk (refused c) e p = ground (arith, map_run_error-status c)

read_body-NotOk : (d : Decoded) → NotOk (read_body d)
unfolding read_body
read_body-NotOk d e p = ground arith

checked-NotOk {ℓ} : {A : Type ℓ} (a : A) (m : Option Message) → NotOk (checked a m)
checked-NotOk a none e p = cc
checked-NotOk a (some m) e p = ground arith

basic-NotOk : (req : ExecuteRequest) → NotOk (validate_execute_request_basic req)
unfolding validate_execute_request_basic
basic-NotOk req = checked-NotOk _ _

prepare-NotOk : (sb : Sandbox) (d : Decoded) → NotOk (prepare sb d)
unfolding prepare
prepare-NotOk sb d = NotOk-bind (read_body d) _ (read_body-NotOk d) λ req.
    NotOk-bind (validate_execute_request_basic req) _ (basic-NotOk req) λ r.
      NotOk-bind (or_map (sb.lang_spec r.language r.version)) _ (or_map-NotOk _)
        λ ls. checked-NotOk (to_run_spec r) (validate_limits r ls.limits)

Result-cases {ℓ} :
    {A : Type ℓ} (r : Result A) → ((e : ApiError) × (r ≡ err e)) ⊎ ((a : A) × (r ≡ ok a))
Result-cases (err e) = inl (e, refl)
Result-cases (ok a) = inr (a, refl)

-- The backend is asked for the run `rs` exactly where every guard was passed and gave `rs`: the
-- body decodes, the trimmed request is acceptable, its language and version are supported, and it
-- keeps to their limits.
pub handle_execute_run :
    (sb : Sandbox) (elapsed : ℤ) (d : Decoded) (rs : RunSpec)
    → ((handle_execute sb elapsed d).ran ≡ some rs) ↔ IsGuarded sb d rs
unfolding handle_execute
handle_execute_run sb elapsed d rs = (asked, λ g. ground (arith, IsGuarded-prepare sb d rs g))
  where
    asked : (handle_execute sb elapsed d).ran ≡ some rs → IsGuarded sb d rs
    asked h = prepare-IsGuarded sb d rs (elim (Result-cases (prepare sb d)) [
      | inl (e, p) ↦ ground arith
      | inr (spec, p) ↦ ground arith
    ])

-- A response has the status 200 exactly where the backend was asked for a run and returned a
-- result, whatever the status of that result; its body then
-- has the outputs, the exit code and the status of that result, and the whole milliseconds that the run
-- took (those of the call, where the run took less than one).
pub handle_execute_ok :
    (sb : Sandbox) (elapsed : ℤ) (d : Decoded)
    → ((handle_execute sb elapsed d).response.code ≡ 200) ↔ (
        (rs : RunSpec) × (res : RunResult) × (body : ExecuteResponse) × IsGuarded sb d rs
        × (sb.run rs ≡ found res)
        × ((handle_execute sb elapsed d).response.body ≡ executed body)
        × Answers res elapsed body)
unfolding handle_execute
handle_execute_ok sb elapsed d = (answered, ran)
  where
    answered :
        (handle_execute sb elapsed d).response.code ≡ 200
        → (rs : RunSpec) × (res : RunResult) × (body : ExecuteResponse) × IsGuarded sb d rs
          × (sb.run rs ≡ found res)
          × ((handle_execute sb elapsed d).response.body ≡ executed body)
          × Answers res elapsed body
    answered h = elim (Result-cases (prepare sb d)) [
      | inl (e, p) ↦ absurd (prepare-NotOk sb d e p (ground arith))
      | inr (spec, p) ↦ elim (Lookup-cases (sb.run spec)) [
        | inl (c, q) ↦ absurd (map_run_error-status c (ground arith))
        | inr (res, q) ↦ (
          spec,
          res,
          to_response res elapsed,
          prepare-IsGuarded sb d spec p,
          q,
          ground arith,
          to_response-Answers res elapsed,
        )
      ]
    ]

    ran :
        (rs : RunSpec) × (res : RunResult) × (body : ExecuteResponse) × IsGuarded sb d rs
          × (sb.run rs ≡ found res)
          × ((handle_execute sb elapsed d).response.body ≡ executed body)
          × Answers res elapsed body
        → (handle_execute sb elapsed d).response.code ≡ 200
    ran (rs, res, body, g, q, _, _) = ground (arith, IsGuarded-prepare sb d rs g)
