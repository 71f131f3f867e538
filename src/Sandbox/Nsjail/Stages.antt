-- ===== src/Sandbox/Nsjail/Stages.antt =====
-- internal/sandbox/nsjail.go: the two stages of a run.
use runboxd.Base.{
  Bool, true, false, Option, none, some, List, [], ◌∷◌, ◌≡◌, refl, ◌↔◌, ◌⊎◌, inl, inr, arith, ap,
  if◌then◌else◌,
}
use runboxd.Base.Int.{pos, negsuc, eqb_ℤ_iff}
use runboxd.Sandbox.Types.{RunSpec, Status}
use runboxd.Sandbox.Entries.{LangEntry, VersionSpec}
use runboxd.Sandbox.Nsjail.{
  Jail, Invocation, CmdEnd, clean, exit_error, not_run, Call, invoke_run, Ended, first, failed,
  returned, finish, exit_code_of, run_stage, built, build_stage, needs_build, stages,
  status_for_nsjail_exit, timed_out_of,
}

abbrev pub status_of : Ended → Option Status
status_of e = elim e.result [ none ↦ none | some r ↦ some r.status ]

abbrev Passed : Bool → CmdEnd → Type 0
Passed timed_out e = (timed_out ≡ false) × ((e ≡ clean) ⊎ (e ≡ exit_error (pos 0)) ⊎ (e ≡ not_run))

ok_iff :
    (t : Bool) (e : CmdEnd)
    → (some (status_for_nsjail_exit (if t then negsuc 0 else exit_code_of e) t) ≡ some Status.ok)
      ↔ Passed t e
unfolding status_for_nsjail_exit exit_code_of
ok_iff true e = (λ h. cc, λ h. cc)
ok_iff false clean = (λ h. (refl, inl refl), λ h. refl)
ok_iff false not_run = (λ h. (refl, inr (inr refl)), λ h. refl)
ok_iff false (exit_error code) = (
  λ h. (refl, inr (inl (ap exit_error ((eqb_ℤ_iff code (pos 0)).0 (ground arith))))),
  λ h. ground (arith, h, (eqb_ℤ_iff code (pos 0)).1),
)

-- The run stage reports "ok" exactly where neither the log nor the deadline says that the time ran out and nsjail ended with the code 0
-- or was not run at all: an error of the invocation other than an exit code is lost.
pub finish_ok_iff :
    (i : Invocation)
    → (status_of (finish i) ≡ some Status.ok) ↔ (
        (timed_out_of i ≡ false)
        × ((i.cmd_end ≡ clean) ⊎ (i.cmd_end ≡ exit_error (pos 0)) ⊎ (i.cmd_end ≡ not_run)))
unfolding finish returned
finish_ok_iff i = ok_iff (timed_out_of i) i.cmd_end

-- Whether a call runs the program.
abbrev pub is_run : Call → Bool
is_run (invoke_run t m) = true
is_run c = false

abbrev pub runs : List Call → Bool
runs [] = false
runs (c ∷ cs) = if is_run c then true else runs cs

built-runs :
    (i : Invocation) (e : CmdEnd) (rest : Ended)
    → runs (built i e rest).calls ≡ true
    → (timed_out_of i ≡ false) × ((e ≡ clean) ⊎ (e ≡ exit_error (pos 0)))
unfolding built failed returned
built-runs i not_run rest h = cc
built-runs i clean rest h = (ground arith, inl refl)
built-runs i (exit_error code) rest h =
    (ground arith, inr (ap exit_error ((eqb_ℤ_iff code (pos 0)).0 (ground arith))))

-- A program that wants a build is run only if the build was made: nsjail ended with the code 0, and
-- neither its log nor its deadline says that the time ran out.
pub stages-runs :
    (j : Jail) (spec : RunSpec) (entry : LangEntry) (vs : VersionSpec)
    → needs_build entry vs ≡ true
    → runs (stages j spec entry vs).calls ≡ true
    → (timed_out_of j.build ≡ false)
      × ((j.build.cmd_end ≡ clean) ⊎ (j.build.cmd_end ≡ exit_error (pos 0)))
unfolding stages build_stage first failed
stages-runs j spec entry vs needs h =
    built-runs j.build j.build.cmd_end (run_stage j spec entry) (ground arith)
