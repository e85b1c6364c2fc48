-- ===== src/Tests/Stores.antt =====
-- The stores at the deployment of Tests/Fixture.
use ops_guard.Prelude.{
  ℕ, ◌≤◌, String, Bool, true, false, none, some, List, [], ◌∷◌, ◌≡◌, ◌≢◌, refl, arith,
}
use ops_guard.Json.{obj, strs, str, field, end}
use ops_guard.Errors.{ok, err, other_error}
use ops_guard.Store.{
  Db, AuditEvent, EventType, Outcome, approval_by_token, proposal_by_token, empty,
}
use ops_guard.World.{World, Exec, pure, raise, modify, transaction, ◌>>=◌}
use ops_guard.World.Within.{Within, Drifts}
use ops_guard.World.Atomic.{begun, transaction-undo}
use ops_guard.Audit.{Entry, entry, append_on}
use ops_guard.Audit.Order.{IsNumbered, append_on-IsNumbered}
use ops_guard.Approvals.{ApprovalDecision, verify, spend_approval_append}
use ops_guard.Approvals.Verified.{IsVerifiedApproval, verify-IsVerifiedApproval}
use ops_guard.Approvals.Spent.{IsSpent, spend-IsSpent}
use ops_guard.Proposals.{FrozenProposal, consume}
use ops_guard.Proposals.Keeps.{KeepsProposals, Keeps-pure}
use ops_guard.Proposals.Once.{IsConsumption, consume-IsConsumption, consume-once}
use ops_guard.Recovery.{Reconciliation, recovered, reconcile_interrupted_executions}
use ops_guard.Recovery.Interrupted.{Recovers}
use ops_guard.Recovery.Settled.{terminals, reconcile-Recovers, reconcile-at_most_one}
use ops_guard.Tests.Fixture.{env, world, frozen, hash, print, invocation}
use ops_guard.Invocation.{to_json}

abbrev nothing_more : String → Exec (Unit {0})
nothing_more _ = pure tt

nothing_more-Keeps : (d : String) → Within KeepsProposals (nothing_more d)
nothing_more-Keeps d = Keeps-pure tt

abbrev consumed : World
consumed = (consume env "t-1" none nothing_more world).1

run_consume : consume env "t-1" none nothing_more world ≡ (ok (frozen (some 100)), consumed)
unfolding ops_guard.Env.canonicalize_json ops_guard.Env.loads_json
    ops_guard.Invocation.canonical_bytes ops_guard.Invocation.from_frozen_json
    ops_guard.Invocation.parse_frozen_invocation ops_guard.Invocation.to_json ops_guard.Prelude.find
    ops_guard.Proposals.consume ops_guard.Proposals.eligible ops_guard.Proposals.row_to_proposal
    ops_guard.Store.consumable ops_guard.Store.consume_rows ops_guard.Store.proposal_by_token
    ops_guard.World.now ops_guard.World.transaction ops_guard.World.◌>>=◌
    ops_guard.Invocation.reject_unrepresentable_numbers
run_consume = refl

consume-IsConsumption_example :
    IsConsumption env "t-1" none nothing_more (begun env world).db consumed.db (frozen (some 100))
consume-IsConsumption_example =
    consume-IsConsumption env "t-1" none nothing_more nothing_more-Keeps world run_consume

left_alone :
    proposal_by_token (begun env consumed).db "k/t-1" ≡ proposal_by_token consumed.db "k/t-1"
unfolding ops_guard.World.transaction
left_alone = refl

consume-once_example :
    (consume env "t-1" (some "other") nothing_more consumed).0 ≢ ok (frozen (some 100))
consume-once_example =
    consume-once env "t-1" none (some "other") nothing_more nothing_more nothing_more-Keeps
      nothing_more-Keeps world consumed run_consume left_alone (frozen (some 100))

abbrev decision : ApprovalDecision
decision = record {
  approval_id = "a-1";
  proposal_id = "p-1";
  invocation_digest = hash (print (to_json invocation));
}

run_verify : verify env "op" "t-1" "op" world ≡ (ok decision, (verify env "op" "t-1" "op" world).1)
unfolding ops_guard.Approvals.check_approval ops_guard.Approvals.verify
    ops_guard.Env.canonicalize_json ops_guard.Env.loads_json ops_guard.Invocation.canonical_bytes
    ops_guard.Invocation.from_frozen_json ops_guard.Invocation.parse_frozen_invocation
    ops_guard.Invocation.to_json ops_guard.Prelude.find ops_guard.Proposals.eligible
    ops_guard.Proposals.fetch_binding_on ops_guard.Proposals.resolve
    ops_guard.Proposals.row_to_proposal ops_guard.Store.approval_by_token
    ops_guard.Store.binding_by_id ops_guard.Store.proposal_by_token ops_guard.World.now
    ops_guard.World.read ops_guard.World.◌>>=◌ ops_guard.Invocation.reject_unrepresentable_numbers
run_verify = refl

verify-IsVerifiedApproval_example :
    (◌≡◌ {A = String} "op" "op") × IsVerifiedApproval env "op" "t-1" world decision
verify-IsVerifiedApproval_example = verify-IsVerifiedApproval env "op" "t-1" "op" world run_verify

abbrev spent : World
spent = (spend_approval_append env "t-1" "k/t-1" consumed).1

run_spend : spend_approval_append env "t-1" "k/t-1" consumed ≡ (ok tt, spent)
unfolding ops_guard.Approvals.spend_approval_append ops_guard.Env.canonicalize_json
    ops_guard.Env.loads_json ops_guard.Invocation.canonical_bytes
    ops_guard.Invocation.from_frozen_json ops_guard.Invocation.parse_frozen_invocation
    ops_guard.Invocation.to_json ops_guard.Prelude.find ops_guard.Proposals.check
    ops_guard.Proposals.consume ops_guard.Proposals.row_to_proposal
    ops_guard.Store.approval_by_token ops_guard.Store.consumable ops_guard.Store.consume_rows
    ops_guard.Store.proposal_by_token ops_guard.Store.spendable ops_guard.World.now
    ops_guard.World.transaction ops_guard.World.◌>>=◌
    ops_guard.Invocation.reject_unrepresentable_numbers
run_spend = refl

spend-IsSpent_example :
    (◌≡◌ {A = String} "k/t-1" "k/t-1")
    × (spent.db.events ≡ consumed.db.events)
    × IsSpent (approval_by_token spent.db "k/t-1")
spend-IsSpent_example = spend-IsSpent env "t-1" "k/t-1" consumed run_spend

-- A transaction that drops everything, then raises
abbrev failing : Exec (Unit {0})
failing w = (err (other_error "interrupted"), record w { db = empty })

abbrev undone : World
undone = (transaction env failing world).1

run_failing : transaction env failing world ≡ (err (other_error "interrupted"), undone)
unfolding ops_guard.World.transaction ops_guard.World.◌>>=◌
run_failing = refl

transaction-undo_example : Drifts env world.db undone.db
transaction-undo_example = transaction-undo env failing world refl run_failing

abbrev start_of : String → Entry
start_of proposal =
    let plain = entry EventType.execution_start (strs (("owner_id", "ended") ∷ [])) in
    record plain { proposal_ref = some proposal }

abbrev logged : World
logged = (append_on env (start_of "p-1") world).1

abbrev start_event : AuditEvent
start_event = record {
  sequence = 1;
  event_id = "iu";
  schema_version = 1;
  recorded_at = 100;
  event_type = EventType.execution_start;
  correlation_id = none;
  proposal_ref = some "p-1";
  invocation_digest = none;
  evidence_refs = [];
  authorization_path = none;
  judge_snapshot = none;
  payload = obj (field "owner_id" (str "ended") end);
  outcome = none;
  failure_code = none;
}

run_append : append_on env (start_of "p-1") world ≡ (ok start_event, logged)
unfolding ops_guard.Audit.Keys.is_sensitive ops_guard.Audit.Redact.redact ops_guard.Audit.append_on
    ops_guard.Audit.build ops_guard.Audit.guarded ops_guard.Audit.insert_event
    ops_guard.Store.next_sequence_on ops_guard.World.new_uuid ops_guard.World.now
    ops_guard.World.transaction ops_guard.World.◌>>=◌
run_append = refl

append_on-IsNumbered_example : IsNumbered 1 logged.db.events
append_on-IsNumbered_example = append_on-IsNumbered env (start_of "p-1") world tt run_append

abbrev swept : World
swept = (reconcile_interrupted_executions env logged).1

abbrev reports : List Reconciliation
reports = record { owner = "ended"; proposal_ref = some "p-1"; action = recovered } ∷ []

run_sweep : reconcile_interrupted_executions env logged ≡ (ok reports, swept)
unfolding ops_guard.Audit.Keys.is_sensitive ops_guard.Audit.Redact.redact ops_guard.Audit.append_on
    ops_guard.Audit.build ops_guard.Audit.guarded ops_guard.Audit.insert_event
    ops_guard.Recovery.has_terminal ops_guard.Recovery.owner_of ops_guard.Recovery.probe
    ops_guard.Recovery.reconcile_each ops_guard.Recovery.reconcile_interrupted_executions
    ops_guard.Recovery.reconcile_start ops_guard.Recovery.settle_start ops_guard.Recovery.starts
    ops_guard.Store.next_sequence_on ops_guard.World.new_uuid ops_guard.World.now
    ops_guard.World.transaction ops_guard.World.◌>>=◌
run_sweep = refl

reconcile-Recovers_example :
    Recovers env (begun env logged).db.events (begun env logged).db.events swept.db.events
reconcile-Recovers_example = reconcile-Recovers env logged swept reports run_sweep

none_yet : terminals "p-1" (begun env logged).db.events ≤ 1
unfolding ops_guard.Audit.Keys.is_sensitive ops_guard.Audit.Redact.redact ops_guard.Audit.append_on
    ops_guard.Audit.build ops_guard.Audit.guarded ops_guard.Audit.insert_event
    ops_guard.Prelude.count_if ops_guard.World.new_uuid ops_guard.World.now
    ops_guard.World.transaction ops_guard.World.◌>>=◌
none_yet = omega arith

reconcile-at_most_one_example : terminals "p-1" swept.db.events ≤ 1
reconcile-at_most_one_example =
    reconcile-at_most_one env logged swept reports "p-1" run_sweep none_yet
