-- ===== src/Gate/Authorize/Idle.antt =====
-- Finding an authorization path writes nothing; nor does `verify` (approvals.py).
use ops_guard.Prelude.{String, List}
use ops_guard.Errors.{Result, ok, err}
use ops_guard.Env.{Env}
use ops_guard.Authorization.{ScriptIdentity}
use ops_guard.Approvals.{ApprovalDecision, verify}
use ops_guard.Proposals.{FrozenProposal, fetch_binding_on}
use ops_guard.Gate.Stage.{ExecutionRequest, Gate}
use ops_guard.Gate.Stage.Idle.{IsIdle, idle_rules, resolve-Idle}
use ops_guard.Gate.Authorize.{settle_approval, authorize}

module _ (env : Env) where
  pub verify-Idle :
      (configured token presented : String) → IsIdle env (verify env configured token presented)
  unfolding verify fetch_binding_on
  verify-Idle configured token presented = search (idle_rules, resolve-Idle) depth 12

  settle_approval-Idle :
      (frozen : FrozenProposal) (bits : List String) (r : Result ApprovalDecision)
      → IsIdle env (settle_approval frozen bits r)
  unfolding settle_approval
  settle_approval-Idle frozen bits (ok decision) = search idle_rules
  settle_approval-Idle frozen bits (err e) = search idle_rules

  pub authorize-Idle :
      (gate : Gate) (request : ExecutionRequest) (frozen : FrozenProposal) (script : ScriptIdentity)
      (profile : String)
      → IsIdle env (authorize env gate request frozen script profile)
  unfolding authorize
  authorize-Idle gate request frozen script profile =
      search (idle_rules, verify-Idle, settle_approval-Idle)
