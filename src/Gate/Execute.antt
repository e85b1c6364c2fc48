-- ===== src/Gate/Execute.antt =====
-- gate.py: `ExecutionGate.execute`.
pub mod Safety
pub mod Recorded
use ops_guard.Prelude.{String, false, Option, none, some, if◌then◌else◌}
use ops_guard.Json.{Fields, str, obj, end, field}
use ops_guard.Errors.{Error, Result, ok, err}
use ops_guard.Env.{Env}
use ops_guard.Store.{EventType, Outcome}
use ops_guard.World.{World, Exec, pure, raise, ◌>>=◌}
use ops_guard.Audit.{Entry, entry, append}
use ops_guard.Proposals.{FrozenProposal}
use ops_guard.Gate.Stage.{
  ExecutionRequest, Gate, GateOutcome, Refusal, Verdict, passed, refused, escaped,
}
use ops_guard.Gate.Checks.{checks}
use ops_guard.Gate.Dispatch.{
  Cleared, Executor, consume_and_start, run_executor, is_dispatch_refusal, dispatch_refusal,
}

-- The optional fields of a refusal's payload; empty texts and objects are left out.
abbrev code_field : Option String → Fields → Fields
code_field none rest = rest
code_field (some code) rest = field "failure_code" (str code) rest

abbrev observation_field : Option Fields → Fields
observation_field none = end
observation_field (some seen) = field "observation" (obj seen) end

abbrev or_else : Option String → Option String → Option String
or_else none other = other
or_else (some d) other = some d

-- The event of a refusal
abbrev pub refusal_entry : ExecutionRequest → Refusal → Entry
refusal_entry request r =
    let plain = entry EventType.refusal (
      field "reason" (str r.reason) (
        field "gate" (str "execution")
          (code_field r.failure_code (observation_field r.observation)))) in
    record plain {
      proposal_ref = r.proposal_id;
      invocation_digest = or_else r.digest request.expected_digest;
      failure_code = r.failure_code;
      outcome = some Outcome.refused;
    }

abbrev pub refused_outcome : Refusal → GateOutcome
refused_outcome r = record {
  dispatched = false;
  refusal = some r.reason;
  proposal_id = r.proposal_id;
  authorization_path = none;
  outcome = Outcome.refused;
}

module _ (env : Env) (gate : Gate) (request : ExecutionRequest) where
  -- `refuse`: the refusal is recorded, then returned.
  unfoldable pub record_refusal : Refusal → Exec GateOutcome
  record_refusal r = do _ ← append env (refusal_entry request r); pure (refused_outcome r)

  -- What the consume transaction returned or raised
  settle_dispatch : Executor → Cleared → Result FrozenProposal → Exec GateOutcome
  unfolding record_refusal
  settle_dispatch executor cleared (ok consumed) =
      run_executor env gate request cleared executor consumed
  settle_dispatch executor cleared (err e) =
      if is_dispatch_refusal e then record_refusal (dispatch_refusal cleared e) else raise e

  -- What follows the checks
  unfoldable pub dispatch : Executor → Cleared → Exec GateOutcome
  unfolding settle_dispatch
  dispatch executor cleared w =
      let (r, w') = consume_and_start env gate request cleared w in
      settle_dispatch executor cleared r w'

  conclude : Executor → Verdict Cleared → Exec GateOutcome
  unfolding record_refusal
  conclude executor (passed cleared) = dispatch executor cleared
  conclude executor (refused r) = record_refusal r
  conclude executor (escaped e) = raise e

  -- `ExecutionGate.execute`
  unfoldable pub execute : Executor → Exec GateOutcome
  unfolding conclude
  execute executor w = let (v, w') = checks env gate request w in conclude executor v w'
