-- ===== src/Tests/Runs.antt =====
-- gate.py at the deployment of Tests/Fixture.
use ops_guard.Prelude.{String, true, false, none, some, [], ◌∷◌, ◌≡◌, refl}
use ops_guard.Errors.{ok}
use ops_guard.World.{World, ◌>>=◌, sqlite, now, new_uuid, catch_up, transaction, read}
use ops_guard.World.Within.{Within, Idle}
use ops_guard.World.Runs.{Runs}
use ops_guard.Store.{success}
use ops_guard.Gate.Stage as S
use ops_guard.Gate.Stage.{GateOutcome, passed, inspect}
use ops_guard.Gate.Checks.{checks}
use ops_guard.Gate.Checks.Facts.{IsSound, checks-IsSound}
use ops_guard.Gate.Idle.{checks-Idle}
use ops_guard.Gate.Dispatch.{Cleared, Executor, injected, staged}
use ops_guard.Gate.Execute.{execute}
use ops_guard.Gate.Execute.Safety.{IsGuarded, execute-Runs}
use ops_guard.Gate.Execute.Recorded.{IsRecorded, execute-IsRecorded}
use ops_guard.Gate.Dispatch.{consume_and_start}
use ops_guard.Gate.Dispatch.Started.{IsStarted, consume_and_start-IsStarted}
use ops_guard.Json.{str, field, end, nat}
use ops_guard.World.Atomic.{begun}
use ops_guard.Tests.Fixture.{env, gate, request, world, standing, binding, frozen}

abbrev after : World
after = (execute env (gate (standing ∷ [])) request injected world).1

abbrev dispatched : GateOutcome
dispatched = record {
  dispatched = true;
  refusal = none;
  proposal_id = some "p-1";
  authorization_path = some "standing";
  outcome = success;
}

run_dispatches : execute env (gate (standing ∷ [])) request injected world ≡ (ok dispatched, after)
unfolding ops_guard.Approvals.spend_approval_append ops_guard.Audit.Keys.is_sensitive
    ops_guard.Audit.Redact.redact ops_guard.Audit.append ops_guard.Audit.append_on
    ops_guard.Audit.build ops_guard.Audit.guarded ops_guard.Audit.insert_event
    ops_guard.Authorization.canonical_eq ops_guard.Authorization.match
    ops_guard.Env.canonicalize_json ops_guard.Env.document_digest ops_guard.Env.loads_json
    ops_guard.Gate.Authorize.authorize ops_guard.Gate.Authorize.try_standing
    ops_guard.Gate.Binding.check_catalog ops_guard.Gate.Binding.match_evidence
    ops_guard.Gate.Binding.resolve_binding_row ops_guard.Gate.Binding.resolve_evidence
    ops_guard.Gate.Binding.resolve_script ops_guard.Gate.Binding.resolve_token
    ops_guard.Gate.Checks.checks ops_guard.Gate.Dispatch.composed
    ops_guard.Gate.Dispatch.consume_and_start ops_guard.Gate.Dispatch.run_executor
    ops_guard.Gate.Execute.dispatch ops_guard.Gate.Execute.execute ops_guard.Gate.Observe.item_at
    ops_guard.Gate.Observe.observe_all ops_guard.Gate.Observe.observe_from
    ops_guard.Gate.Observe.observe_one ops_guard.Gate.Stage.inspect ops_guard.Gate.Stage.◌>>=◌
    ops_guard.Invocation.canonical_bytes ops_guard.Invocation.from_frozen_json
    ops_guard.Invocation.parse_frozen_invocation ops_guard.Invocation.to_json
    ops_guard.Preconditions.binding_for ops_guard.Preconditions.find_observer
    ops_guard.Preconditions.observe ops_guard.Preconditions.observe_with
    ops_guard.Preconditions.timeout_for ops_guard.Prelude.find ops_guard.Proposals.consume
    ops_guard.Proposals.eligible ops_guard.Proposals.fetch_binding_on ops_guard.Proposals.resolve
    ops_guard.Proposals.row_to_proposal ops_guard.Runbooks.resolve_citation
    ops_guard.Store.approval_by_token ops_guard.Store.binding_by_id ops_guard.Store.consumable
    ops_guard.Store.consume_rows ops_guard.Store.next_sequence_on ops_guard.Store.proposal_by_token
    ops_guard.Store.spendable ops_guard.World.new_uuid ops_guard.World.now ops_guard.World.read
    ops_guard.World.stamp ops_guard.World.transaction ops_guard.World.◌>>=◌
    ops_guard.Invocation.reject_unrepresentable_numbers
run_dispatches = refl

execute-Runs_example :
    Runs
      (IsGuarded env (gate (standing ∷ [])) request world)
      world
      (execute env (gate (standing ∷ [])) request injected world).1
execute-Runs_example = execute-Runs env (gate (standing ∷ [])) request injected world

execute-IsRecorded_example : IsRecorded env (gate (standing ∷ [])) request dispatched world after
execute-IsRecorded_example =
    execute-IsRecorded env (gate (standing ∷ [])) request injected world after dispatched
      run_dispatches

abbrev cleared : Cleared
cleared = record {
  frozen = frozen none;
  binding = binding;
  script_bytes = "systemctl restart web";
  path = "standing";
  observations =
      field "runbook_id" (str "restart-web") (
        field "revision" (str "1") (
          field "content_hash" (str "rev-1") (
            field "precondition_index" (nat 0) (
              field "precondition_name" (str "service") (
                field "observer_id" (str "http") (
                  field "policy_digest" (str "policy") (
                    field "observed_at" (str "2026-01-01T00:00:00Z")
                      (field "outcome" (str "matched") end))))))))
      ∷ [];
}

abbrev checked : World
checked = (checks env (gate (standing ∷ [])) request world).1

run_checks : checks env (gate (standing ∷ [])) request world ≡ (passed cleared, checked)
unfolding ops_guard.Authorization.canonical_eq ops_guard.Authorization.match
    ops_guard.Env.canonicalize_json ops_guard.Env.document_digest ops_guard.Env.loads_json
    ops_guard.Gate.Authorize.authorize ops_guard.Gate.Authorize.try_standing
    ops_guard.Gate.Binding.check_catalog ops_guard.Gate.Binding.match_evidence
    ops_guard.Gate.Binding.resolve_binding_row ops_guard.Gate.Binding.resolve_evidence
    ops_guard.Gate.Binding.resolve_script ops_guard.Gate.Binding.resolve_token
    ops_guard.Gate.Checks.checks ops_guard.Gate.Observe.item_at ops_guard.Gate.Observe.observe_all
    ops_guard.Gate.Observe.observe_from ops_guard.Gate.Observe.observe_one
    ops_guard.Gate.Stage.inspect ops_guard.Gate.Stage.◌>>=◌ ops_guard.Invocation.canonical_bytes
    ops_guard.Invocation.from_frozen_json ops_guard.Invocation.parse_frozen_invocation
    ops_guard.Invocation.to_json ops_guard.Preconditions.binding_for
    ops_guard.Preconditions.find_observer ops_guard.Preconditions.observe
    ops_guard.Preconditions.observe_with ops_guard.Preconditions.timeout_for ops_guard.Prelude.find
    ops_guard.Proposals.eligible ops_guard.Proposals.fetch_binding_on ops_guard.Proposals.resolve
    ops_guard.Proposals.row_to_proposal ops_guard.Runbooks.resolve_citation
    ops_guard.Store.binding_by_id ops_guard.Store.proposal_by_token ops_guard.World.now
    ops_guard.World.read ops_guard.World.stamp ops_guard.World.◌>>=◌
    ops_guard.Invocation.reject_unrepresentable_numbers
run_checks = refl

checks-IsSound_example : IsSound env (gate (standing ∷ [])) request world cleared
checks-IsSound_example = checks-IsSound env (gate (standing ∷ [])) request world run_checks

checks-Idle_example : Within (Idle env) (checks env (gate (standing ∷ [])) request)
checks-Idle_example = checks-Idle env (gate (standing ∷ [])) request

abbrev started : World
started = (consume_and_start env (gate (standing ∷ [])) request cleared checked).1

run_start :
    consume_and_start env (gate (standing ∷ [])) request cleared checked
    ≡ (ok (frozen (some 100)), started)
unfolding ops_guard.Approvals.spend_approval_append ops_guard.Audit.Keys.is_sensitive
    ops_guard.Audit.Redact.redact ops_guard.Audit.append_on ops_guard.Audit.build
    ops_guard.Audit.guarded ops_guard.Audit.insert_event ops_guard.Authorization.canonical_eq
    ops_guard.Authorization.match ops_guard.Env.canonicalize_json ops_guard.Env.document_digest
    ops_guard.Env.loads_json ops_guard.Gate.Authorize.authorize
    ops_guard.Gate.Authorize.try_standing ops_guard.Gate.Binding.check_catalog
    ops_guard.Gate.Binding.match_evidence ops_guard.Gate.Binding.resolve_binding_row
    ops_guard.Gate.Binding.resolve_evidence ops_guard.Gate.Binding.resolve_script
    ops_guard.Gate.Binding.resolve_token ops_guard.Gate.Checks.checks
    ops_guard.Gate.Dispatch.composed ops_guard.Gate.Dispatch.consume_and_start
    ops_guard.Gate.Observe.item_at ops_guard.Gate.Observe.observe_all
    ops_guard.Gate.Observe.observe_from ops_guard.Gate.Observe.observe_one
    ops_guard.Gate.Stage.inspect ops_guard.Gate.Stage.◌>>=◌ ops_guard.Invocation.canonical_bytes
    ops_guard.Invocation.from_frozen_json ops_guard.Invocation.parse_frozen_invocation
    ops_guard.Invocation.to_json ops_guard.Preconditions.binding_for
    ops_guard.Preconditions.find_observer ops_guard.Preconditions.observe
    ops_guard.Preconditions.observe_with ops_guard.Preconditions.timeout_for ops_guard.Prelude.find
    ops_guard.Proposals.consume ops_guard.Proposals.eligible ops_guard.Proposals.fetch_binding_on
    ops_guard.Proposals.resolve ops_guard.Proposals.row_to_proposal
    ops_guard.Runbooks.resolve_citation ops_guard.Store.approval_by_token
    ops_guard.Store.binding_by_id ops_guard.Store.consumable ops_guard.Store.consume_rows
    ops_guard.Store.proposal_by_token ops_guard.Store.spendable ops_guard.World.new_uuid
    ops_guard.World.now ops_guard.World.read ops_guard.World.stamp ops_guard.World.transaction
    ops_guard.World.◌>>=◌ ops_guard.Invocation.reject_unrepresentable_numbers
run_start = refl

consume_and_start-IsStarted_example :
    IsStarted env
      (gate (standing ∷ []))
      request
      cleared
      (begun env checked).db
      started.db
      (frozen (some 100))
consume_and_start-IsStarted_example =
    consume_and_start-IsStarted env (gate (standing ∷ [])) request cleared checked run_start
