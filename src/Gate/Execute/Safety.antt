-- ===== src/Gate/Execute/Safety.antt =====
-- gate.py: what `ExecutionGate.execute` may run.
use ops_guard.Prelude.{◌≡◌, refl, ap}
use ops_guard.Errors.{Error, Result, ok, err}
use ops_guard.Env.{Env}
use ops_guard.World.{World, Dispatch}
use ops_guard.World.Quiet.{IsQuiet, quiet_rules}
use ops_guard.World.Runs.{Runs, nothing, quiet_before, Runs-map}
use ops_guard.Audit.Quiet.{append-Quiet}
use ops_guard.Proposals.{FrozenProposal}
use ops_guard.Gate.Stage.{ExecutionRequest, Gate, Refusal, Verdict, passed, refused, escaped}
use ops_guard.Gate.Checks.{checks}
use ops_guard.Gate.Checks.Facts.{IsSound, checks-IsSound}
use ops_guard.Gate.Idle.{checks-Idle}
use ops_guard.Gate.Dispatch.{Cleared, Executor, consume_and_start}
use ops_guard.Gate.Dispatch.Runs.{IsCleared, run_executor-Runs, consume_and_start-Quiet}
use package.ops_guard.Gate.Execute.{record_refusal, settle_dispatch, dispatch, conclude, execute}

module _ (env : Env) (gate : Gate) (request : ExecutionRequest) where
  -- The checks passed in the world `w`, with what that means, the consume transaction then
  -- returned, and the run is of what they cleared.
  pub record IsGuarded (w : World) (d : Dispatch) : Type 0 where
    pub cleared : Cleared
    pub checked : (checks env gate request w).0 ≡ passed cleared
    pub consumed : FrozenProposal
    pub started :
        (consume_and_start env gate request cleared (checks env gate request w).1).0 ≡ ok consumed
    pub sound : IsSound env gate request w cleared
    pub is_cleared : IsCleared env gate request cleared consumed d

  pub record_refusal-Quiet : (r : Refusal) → IsQuiet (record_refusal env gate request r)
  unfolding record_refusal
  record_refusal-Quiet r = search (quiet_rules, append-Quiet)

  module _ (executor : Executor) where
    refusal_or_raise-Quiet :
        (cleared : Cleared) (e : Error)
        → IsQuiet (settle_dispatch env gate request executor cleared (err e))
    unfolding settle_dispatch
    refusal_or_raise-Quiet cleared e = search (quiet_rules, append-Quiet)

    module _ (w : World) where
      settle_dispatch-Runs :
          (cleared : Cleared)
          → (checks env gate request w).0 ≡ passed cleared
          → (r : Result FrozenProposal) (w2 : World)
          → (consume_and_start env gate request cleared (checks env gate request w).1).0 ≡ r
          → Runs (IsGuarded w) w2 (settle_dispatch env gate request executor cleared r w2).1
      unfolding settle_dispatch
      settle_dispatch-Runs cleared checked (err e) w2 h =
          nothing ((refusal_or_raise-Quiet cleared e).at w2)
      settle_dispatch-Runs cleared checked (ok consumed) w2 h =
          Runs-map
            (λ d run. record {
              cleared = cleared;
              checked = checked;
              consumed = consumed;
              started = h;
              sound =
                  checks-IsSound env gate request w
                    (ap (λ v. (v, (checks env gate request w).1)) checked);
              is_cleared = run;
            })
            ((run_executor-Runs env gate request cleared executor consumed).at w2)

      dispatch-Runs :
          (cleared : Cleared)
          → (checks env gate request w).0 ≡ passed cleared
          → Runs
              (IsGuarded w)
              (checks env gate request w).1
              (dispatch env gate request executor cleared (checks env gate request w).1).1
      unfolding dispatch
      dispatch-Runs cleared checked =
          quiet_before ((consume_and_start-Quiet env gate request cleared).at _)
            (settle_dispatch-Runs cleared checked _ _ refl)

      conclude-Runs :
          (v : Verdict Cleared)
          → (checks env gate request w).0 ≡ v
          → Runs
              (IsGuarded w)
              (checks env gate request w).1
              (conclude env gate request executor v (checks env gate request w).1).1
      unfolding conclude
      conclude-Runs (passed cleared) h = dispatch-Runs cleared h
      conclude-Runs (refused r) h = nothing ((record_refusal-Quiet r).at _)
      conclude-Runs (escaped e) h = nothing refl

      -- A call of `execute`, however it ends, runs nothing, or it runs one script: then every check
      -- of the gate passed, the transaction that consumes the token, appends the execution start
      -- and spends the approval returned, and what ran is the bound path with the consumed
      -- invocation, in bytes whose digest is that of the checked script.
      pub execute-Runs : Runs (IsGuarded w) w (execute env gate request executor w).1
      unfolding execute
      execute-Runs = quiet_before ((checks-Idle env gate request).at w).quiet (conclude-Runs _ refl)
