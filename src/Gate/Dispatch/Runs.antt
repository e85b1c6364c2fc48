-- ===== src/Gate/Dispatch/Runs.antt =====
-- gate.py: what the dispatch may run.
use ops_guard.Prelude.{String, Option, none, some, refl}
use ops_guard.Errors.{Error, Result, ok, err}
use ops_guard.Env.{Env, Report, reported, timed_out, crashed}
use ops_guard.Store.{Outcome}
use ops_guard.World.{Dispatch, tick, run_script}
use ops_guard.World.Within.{Within}
use ops_guard.World.Quiet.{IsQuiet, quiet_rules, IsQuiet-tick, IsQuiet-raise, IsQuiet-bind}
use ops_guard.World.Runs.{Runs, quiet_after, Runs-none, Runs-script, Runs-first}
use ops_guard.Audit.Quiet.{append_on-Quiet, append-Quiet}
use ops_guard.Proposals.{FrozenProposal}
use ops_guard.Proposals.Quiet.{consume-Quiet}
use ops_guard.Approvals.Quiet.{spend-Quiet}
use ops_guard.ExecutionBinding.{RunnerProfile}
use ops_guard.ExecutionBinding.Runner.{RunnerResult}
use ops_guard.ExecutionBinding.Runner.Verified.{IsVerified, run_staged-Runs}
use ops_guard.Gate.Stage.{ExecutionRequest, Gate}
use ops_guard.Gate.Dispatch.{
  Cleared, Executor, staged, injected, composed, consume_and_start, record_and_raise, complete,
  settle_staged, run_profile, settle_report, run_executor,
}

module _ (env : Env) (gate : Gate) (request : ExecutionRequest) (cleared : Cleared) where
  composed-Quiet : (digest : String) → IsQuiet (composed env gate request cleared digest)
  unfolding composed
  composed-Quiet digest = search (quiet_rules, append_on-Quiet, spend-Quiet)

  pub consume_and_start-Quiet : IsQuiet (consume_and_start env gate request cleared)
  unfolding consume_and_start
  consume_and_start-Quiet = consume-Quiet env request.token request.expected_digest _ composed-Quiet

  record_and_raise-Quiet :
      (o : Outcome) (code : String) (e : Error)
      → IsQuiet (record_and_raise env gate request cleared o code e)
  unfolding record_and_raise
  record_and_raise-Quiet o code e = search (quiet_rules, append-Quiet)

  complete-Quiet :
      (o : Outcome) (code : Option String) → IsQuiet (complete env gate request cleared o code)
  unfolding complete
  complete-Quiet o code = search (quiet_rules, append-Quiet)

  settle_staged-Quiet :
      (r : Result RunnerResult) → IsQuiet (settle_staged env gate request cleared r)
  unfolding settle_staged
  settle_staged-Quiet (ok result) = search (quiet_rules, append-Quiet)
  settle_staged-Quiet (err e) = search (quiet_rules, append-Quiet)

  settle_report-Quiet : (r : Report) → IsQuiet (settle_report env gate request cleared r)
  unfolding settle_report
  settle_report-Quiet (reported name) = search (quiet_rules, append-Quiet) depth 8
  settle_report-Quiet timed_out = search (quiet_rules, append-Quiet)
  settle_report-Quiet (crashed s) = search (quiet_rules, append-Quiet)

  -- A run of what was cleared: the bound path, the frozen invocation, and the cleared digest.
  abbrev pub IsCleared : FrozenProposal → Dispatch → Type 0
  IsCleared consumed =
      IsVerified env cleared.binding.document.script_path (env.sha256 cleared.script_bytes)
        consumed.invocation

  run_profile-Runs :
      (consumed : FrozenProposal) (profile : Option RunnerProfile)
      → Within (Runs (IsCleared consumed)) (run_profile env gate request cleared consumed profile)
  unfolding run_profile
  run_profile-Runs consumed none = Runs-none _ (IsQuiet-raise _)
  run_profile-Runs consumed (some profile) = record {
    at = λ w.
        quiet_after
          ((run_staged-Runs env cleared.binding.document.script_path
              (env.sha256 cleared.script_bytes) consumed.invocation profile cleared.script_bytes).at
            w)
          ((settle_staged-Quiet _).at _);
  }

  pub run_executor-Runs :
      (executor : Executor) (consumed : FrozenProposal)
      → Within (Runs (IsCleared consumed)) (run_executor env gate request cleared executor consumed)
  unfolding run_executor
  run_executor-Runs staged consumed = run_profile-Runs consumed _
  run_executor-Runs injected consumed =
      Runs-first (run_script _) _
        (Runs-script _ (record { path = refl; bytes = refl; operation = refl }))
        (λ _. IsQuiet-bind tick _ IsQuiet-tick λ at. settle_report-Quiet (env.executor at))
