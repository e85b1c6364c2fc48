-- ===== src/Gate/Dispatch.antt =====
-- gate.py, `execute` from the dispatch on: one durable transaction, the run, and its outcome.
pub mod Runs
pub mod Started
pub mod Completed
use ops_guard.Prelude.{
  ℕ, String, Bool, true, false, ◌||◌, Option, none, some, List, [], ◌∷◌, ◌==◌, ◌⊕◌, if◌then◌else◌,
}
use ops_guard.Json.{Json, Items, Fields, str, arr, obj, nil, cons, end, field, strs}
use ops_guard.Errors.{
  Error, Result, ok, err, message, is_proposal_error, is_approval_error, is_audit_write_failure,
  value_error, type_error, timeout_error, other_error,
}
use ops_guard.Env.{Env, Report, reported, timed_out, crashed}
use ops_guard.Store.{
  BindingRow, ExecutionBinding, EventType, Outcome, success, failure, unknown, refused,
}
use ops_guard.World.{World, Exec, Dispatch, pure, raise, lift, ◌>>=◌, ◌>>◌, tick, run_script}
use ops_guard.Audit.{Entry, entry, append_on, append}
use ops_guard.Approvals.{spend_approval_append}
use ops_guard.ExecutionBinding.{Catalog, RunnerProfile}
use ops_guard.ExecutionBinding.Runner.{RunnerResult, run_staged}
use ops_guard.Proposals.{FrozenProposal, consume}
use ops_guard.Gate.Stage.{ExecutionRequest, Gate, GateOutcome, Refusal}
use ops_guard.Gate.Binding.{find_profile}

-- What the checks have established when the gate dispatches.
pub record Cleared : Type 0 where
  pub frozen : FrozenProposal
  pub binding : BindingRow
  pub script_bytes : String
  pub path : String
  pub observations : List Fields

-- `executor`: `staged` for `None`, else an injected one.
pub data Executor : Type 0 where
  staged injected : Executor

abbrev observation_items : List Fields → Items
observation_items [] = nil
observation_items (o ∷ os) = cons (obj o) (observation_items os)

module _ (env : Env) (gate : Gate) (request : ExecutionRequest) (cleared : Cleared) where
  abbrev document : ExecutionBinding
  document = cleared.binding.document

  -- The execution-start event
  abbrev pub start_entry : Entry
  start_entry =
      let plain = entry EventType.execution_start (
        field "phase" (str "pre-execution") (
          field "script_path" (str document.script_path) (
            field "script_sha256" (str (env.sha256 cleared.script_bytes)) (
              field "execution_binding_digest" (str cleared.binding.binding_digest) (
                field "runner_profile_id" (str document.runner_profile_id) (
                  field "owner_id" (str gate.owner_id) (
                    field "observations" (arr (observation_items cleared.observations))
                      end))))))) in
      record plain {
        correlation_id = some cleared.frozen.proposal_id;
        proposal_ref = some cleared.frozen.proposal_id;
        invocation_digest = some cleared.frozen.invocation_digest;
        evidence_refs =
            (request.citation.runbook_id ⊕ "@" ⊕ request.citation.revision)
            ∷ request.citation.content_hash
            ∷ request.citation.locator
            ∷ [];
        authorization_path = some cleared.path;
      }

  -- `composed`: the callbacks of the consume transaction, in order
  unfoldable pub composed : String → Exec (Unit {0})
  composed consumed_digest = do
    _ ← append_on env start_entry
    spend_approval_append env request.token consumed_digest

  -- Step 6: consume the token, append the start and spend the approval, or none of it.
  unfoldable pub consume_and_start : Exec FrozenProposal
  consume_and_start = consume env request.token request.expected_digest composed

  -- An execution-outcome event
  abbrev pub outcome_entry : Outcome → String → Option String → Entry
  outcome_entry outcome name code =
      let plain = entry EventType.execution_outcome (strs (("outcome", name) ∷ [])) in
      record plain {
        correlation_id = some cleared.frozen.proposal_id;
        proposal_ref = some cleared.frozen.proposal_id;
        invocation_digest = some cleared.frozen.invocation_digest;
        authorization_path = some cleared.path;
        outcome = some outcome;
        failure_code = code;
      }

  abbrev pub outcome_name : Outcome → String
  outcome_name success = "success"
  outcome_name failure = "failure"
  outcome_name unknown = "unknown"
  outcome_name refused = "refused"

  -- The outcome is recorded, then the exception propagates.
  record_and_raise : Outcome → String → Error → Exec GateOutcome
  record_and_raise outcome code error = do
    _ ← append env (outcome_entry outcome (outcome_name outcome) (some code))
    raise error

  -- The last append and the returned `GateOutcome`
  complete : Outcome → Option String → Exec GateOutcome
  complete outcome code = do
    _ ← append env (outcome_entry outcome (outcome_name outcome) code)
    pure (record {
      dispatched = true;
      refusal = none;
      proposal_id = some cleared.frozen.proposal_id;
      authorization_path = some cleared.path;
      outcome = outcome;
    })

  settle_staged : Result RunnerResult → Exec GateOutcome
  unfolding complete record_and_raise
  settle_staged (ok result) = complete result.outcome result.failure_code
  settle_staged (err error) = record_and_raise failure "executor-error" error

  -- The lookup of the profile stands outside the `try`.
  run_profile : FrozenProposal → Option RunnerProfile → Exec GateOutcome
  unfolding settle_staged
  run_profile consumed none = raise (type_error "no such runner profile")
  run_profile consumed (some profile) = λ w.
      let (r, w') =
        run_staged env profile document.script_path cleared.script_bytes
          (env.sha256 cleared.script_bytes) consumed.invocation w in
      settle_staged r w'

  profile_of : Option Catalog → Option RunnerProfile
  profile_of none = none
  profile_of (some catalog) = find_profile document.runner_profile_id catalog.profiles

  settle_report : Report → Exec GateOutcome
  unfolding complete record_and_raise
  settle_report (reported name) =
      if name == "success"
      then complete success none
      else if name == "unknown"
      then complete unknown none
      else record_and_raise failure "executor-error"
          (value_error ("executor must report success or unknown, got " ⊕ name))
  settle_report timed_out =
      record_and_raise unknown "executor-timeout" (timeout_error "executor timed out")
  settle_report (crashed s) = record_and_raise failure "executor-error" (other_error s)

  -- Step 7: the side effect, then the outcome record.
  unfoldable pub run_executor : Executor → FrozenProposal → Exec GateOutcome
  unfolding run_profile profile_of settle_report
  run_executor staged consumed = run_profile consumed (profile_of gate.catalog)
  run_executor injected consumed = do
    run_script (record {
      script_path = document.script_path;
      script_bytes = cleared.script_bytes;
      invocation = consumed.invocation;
    })
    at ← tick
    settle_report (env.executor at)

-- `except (ProposalError, ApprovalError, AuditWriteFailure)`
unfoldable pub is_dispatch_refusal : Error → Bool
is_dispatch_refusal e = is_proposal_error e || (is_approval_error e || is_audit_write_failure e)

abbrev pub dispatch_refusal : Cleared → Error → Refusal
dispatch_refusal cleared error = record {
  reason = "dispatch refused: " ⊕ message error;
  proposal_id = some cleared.frozen.proposal_id;
  digest = none;
  failure_code = none;
  observation = none;
}
