-- ===== src/Gate/Dispatch/Completed.antt =====
-- gate.py: an execution that returns has recorded its outcome.
use ops_guard.Prelude.{
  String, true, Option, none, some, [], ◌∷◌, ◌++◌, ◌==◌, ◌≡◌, refl, sym, ◌∙◌, ap, subst, arith, inl,
  inr,
}
use ops_guard.Errors.{Error, Result, ok, err}
use ops_guard.Store.{
  AuditEvent, Db, EventType, Outcome, next_sequence_on, success, failure, unknown,
}
use ops_guard.Env.{Env, Report, reported, timed_out, crashed}
use ops_guard.World.{World, Exec, run_script, tick, ◌>>=◌}
use ops_guard.World.Steps.{bind-ok, if-ok, ok-injective}
use ops_guard.Audit.{append}
use ops_guard.Audit.Order.{append-EndsWith}
use ops_guard.ExecutionBinding.{RunnerProfile}
use ops_guard.ExecutionBinding.Runner.{RunnerResult}
use ops_guard.Proposals.{FrozenProposal}
use ops_guard.Gate.Stage.{ExecutionRequest, Gate, GateOutcome}
use package.ops_guard.Gate.Dispatch.{
  Cleared, Executor, staged, injected, outcome_entry, outcome_name, record_and_raise, complete,
  settle_staged, run_profile, settle_report, run_executor,
}

module _ (env : Env) (gate : Gate) (request : ExecutionRequest) (cleared : Cleared) where
  -- The event is the execution outcome of what was cleared: of its proposal, digest and path.
  pub record IsOutcome (result : Outcome) (e : AuditEvent) : Type 0 where
    pub event_type : e.event_type ≡ EventType.execution_outcome
    pub correlation_id : e.correlation_id ≡ some cleared.frozen.proposal_id
    pub proposal_ref : e.proposal_ref ≡ some cleared.frozen.proposal_id
    pub invocation_digest : e.invocation_digest ≡ some cleared.frozen.invocation_digest
    pub authorization_path : e.authorization_path ≡ some cleared.path
    pub outcome : e.outcome ≡ some result

  -- The returned outcome is dispatched, of the proposal and path that were cleared, and the log
  -- ends with it.
  pub record IsCompleted (o : GateOutcome) (after : Db) : Type 0 where
    pub dispatched : o.dispatched ≡ true
    pub proposal_id : o.proposal_id ≡ some cleared.frozen.proposal_id
    pub authorization_path : o.authorization_path ≡ some cleared.path
    pub before : Db
    pub event : AuditEvent
    pub stored : after ≡ record before { events = before.events ++ event ∷ [] }
    pub sequence : event.sequence ≡ next_sequence_on before
    pub is_outcome : IsOutcome o.outcome event

  abbrev Completes : Exec GateOutcome → Type 0
  Completes m = (w w' : World) (o : GateOutcome) → m w ≡ (ok o, w') → IsCompleted o w'.db

  abbrev completed : Outcome → GateOutcome
  completed o = record {
    dispatched = true;
    refusal = none;
    proposal_id = some cleared.frozen.proposal_id;
    authorization_path = some cleared.path;
    outcome = o;
  }

  complete-Completes :
      (o : Outcome) (code : Option String) → Completes (complete env gate request cleared o code)
  unfolding complete
  complete-Completes o code w w' out h =
      bind-ok
        (append env
          (outcome_entry env gate request cleared o (outcome_name env gate request cleared o) code))
        _ w h
        λ e w1 p q.
          let log = append-EndsWith env _ w p in
          let is : completed o ≡ out = ok-injective (ap (λ x. x.0) q) in
          subst (λ r. IsCompleted r w'.db) is
            (record {
              dispatched = refl;
              proposal_id = refl;
              authorization_path = refl;
              before = log.before;
              event = log.event;
              stored = sym (ap (λ x. x.1.db) q) ∙ log.stored;
              sequence = log.is_event.sequence;
              is_outcome = record {
                event_type = log.is_event.event_type;
                correlation_id = log.is_event.correlation_id;
                proposal_ref = log.is_event.proposal_ref;
                invocation_digest = log.is_event.invocation_digest;
                authorization_path = log.is_event.authorization_path;
                outcome = log.is_event.outcome;
              };
            })

  raise-Completes :
      (o : Outcome) (code : String) (e : Error)
      → Completes (record_and_raise env gate request cleared o code e)
  unfolding record_and_raise ◌>>=◌
  raise-Completes o code e w w' out h = absurd (ground arith)

  staged-Completes :
      (r : Result RunnerResult) → Completes (settle_staged env gate request cleared r)
  unfolding settle_staged
  staged-Completes (ok result) w w' o h =
      complete-Completes result.outcome result.failure_code w w' o h
  staged-Completes (err e) w w' o h = raise-Completes failure "executor-error" e w w' o h

  report-Completes : (r : Report) → Completes (settle_report env gate request cleared r)
  unfolding settle_report
  report-Completes (reported name) w w' o h = elim (if-ok (name == "success") _ _ w h) [
    | inl (_, p) ↦ complete-Completes success none w w' o p
    | inr (_, p) ↦ elim (if-ok (name == "unknown") _ _ w p) [
      | inl (_, q) ↦ complete-Completes unknown none w w' o q
      | inr (_, q) ↦ raise-Completes _ _ _ w w' o q
    ]
  ]
  report-Completes timed_out w w' o h = raise-Completes _ _ _ w w' o h
  report-Completes (crashed s) w w' o h = raise-Completes _ _ _ w w' o h

  profile-Completes :
      (consumed : FrozenProposal) (p : Option RunnerProfile)
      → Completes (run_profile env gate request cleared consumed p)
  unfolding run_profile
  profile-Completes consumed none w w' o h = absurd (ground arith)
  profile-Completes consumed (some p) w w' o h = staged-Completes _ _ w' o h

  pub run_executor-Completes :
      (executor : Executor) (consumed : FrozenProposal)
      → Completes (run_executor env gate request cleared executor consumed)
  unfolding run_executor
  run_executor-Completes staged consumed w w' o h = profile-Completes consumed _ w w' o h
  run_executor-Completes injected consumed w w' o h =
      bind-ok (run_script _) _ w h λ _ w1 p h1.
        bind-ok tick _ w1 h1 λ at w2 q h2. report-Completes (env.executor at) w2 w' o h2
