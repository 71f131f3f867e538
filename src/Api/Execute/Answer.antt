-- ===== src/Api/Execute/Answer.antt =====
-- internal/api/api.go: the body that `toResponse` makes of the result of a run.
use runboxd.Base.{
  ℕ, suc, ◌+◌, ◌*◌, ◌/◌, ◌≤◌, ◌<◌, ◌≡◌, refl, ◌≢◌, ◌⊎◌, inl, inr, sym, subst, ◌∙◌, arith,
  Bool-cases,
}
use mathlib.Core.Bool.{false≢true}
use runboxd.Base.Int.{ℤ, pos, negsuc, sub_ℕ, eqb_ℤ, eqb_ℤ_iff}
use runboxd.Sandbox.Types.{RunResult}
use runboxd.Api.Types.{ExecuteResponse}
use runboxd.Api.Execute.{milliseconds, to_response}

-- The whole milliseconds of a duration in nanoseconds, towards zero.
pub data IsMilliseconds : ℤ → ℤ → Type 0 where
  forward : (n ms : ℕ) → ms * 1000000 ≤ n → n < suc ms * 1000000 → IsMilliseconds (pos n) (pos ms)
  backward :
      (n ms : ℕ)
      → ms * 1000000 ≤ suc n
      → suc n < suc ms * 1000000
      → IsMilliseconds (negsuc n) (sub_ℕ 0 ms)

-- A body that tells the result: its outputs, its exit code and its status, and the milliseconds that the
-- run took, or where these are zero those of the whole call.
pub record Answers (result : RunResult) (elapsed : ℤ) (body : ExecuteResponse) : Type 0 where
  pub stdout : body.stdout ≡ result.stdout
  pub stderr : body.stderr ≡ result.stderr
  pub exit_code : body.exit_code ≡ result.exit_code
  pub status : body.status ≡ result.status
  pub duration :
      (IsMilliseconds result.duration body.duration_ms × (body.duration_ms ≢ pos 0))
      ⊎ (IsMilliseconds result.duration (pos 0) × IsMilliseconds elapsed body.duration_ms)

milliseconds-IsMilliseconds : (d : ℤ) → IsMilliseconds d (milliseconds d)
unfolding milliseconds
milliseconds-IsMilliseconds (pos n) = forward n (n / 1000000) (omega arith) (omega arith)
milliseconds-IsMilliseconds (negsuc n) = backward n ((n + 1) / 1000000) (omega arith) (omega arith)

pub to_response-Answers :
    (result : RunResult) (elapsed : ℤ) → Answers result elapsed (to_response result elapsed)
unfolding to_response
to_response-Answers result elapsed =
    let ms = milliseconds result.duration in
    let exact = milliseconds-IsMilliseconds result.duration in
    elim (Bool-cases (eqb_ℤ ms (pos 0))) [
      | inl none_whole ↦ record {
        stdout = refl;
        stderr = refl;
        exit_code = refl;
        status = refl;
        duration = inr (
          subst (IsMilliseconds result.duration) ((eqb_ℤ_iff ms (pos 0)).0 none_whole) exact,
          rw none_whole (milliseconds-IsMilliseconds elapsed),
        );
      }
      | inr some_whole ↦ record {
        stdout = refl;
        stderr = refl;
        exit_code = refl;
        status = refl;
        duration = inl (
          rw some_whole exact,
          rw some_whole (λ e. false≢true (sym some_whole ∙ (eqb_ℤ_iff ms (pos 0)).1 e)),
        );
      }
    ]
