-- ===== src/Gate/Idle.antt =====
-- gate.py: the checks before the dispatch are read-only.
use ops_guard.Env.{Env}
use ops_guard.Gate.Stage.{ExecutionRequest, Gate}
use ops_guard.Gate.Stage.Idle.{IsIdle, idle_rules}
use ops_guard.Gate.Binding.Idle.{
  resolve_evidence-Idle, resolve_token-Idle, resolve_binding_row-Idle, resolve_script-Idle,
  check_catalog-Idle, match_evidence-Idle,
}
use ops_guard.Gate.Observe.Idle.{observe_all-Idle}
use ops_guard.Gate.Authorize.Idle.{authorize-Idle}
use ops_guard.Gate.Checks.{checks}

-- The checks run no script and write nothing, whatever they conclude: the database after them is
-- the one before, but for what other processes committed meanwhile.
pub checks-Idle :
    (env : Env) (gate : Gate) (request : ExecutionRequest) → IsIdle env (checks env gate request)
unfolding checks
checks-Idle env gate request =
    search
      (
        idle_rules, resolve_evidence-Idle, resolve_token-Idle, resolve_binding_row-Idle,
        resolve_script-Idle, check_catalog-Idle, match_evidence-Idle, observe_all-Idle,
        authorize-Idle,
      )
      depth 20
