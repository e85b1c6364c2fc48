-- ===== src/Gate/Execute/Recorded.antt =====
-- gate.py: every outcome that `execute` returns is the last event of the log.
use ops_guard.Prelude.{some, ◌≡◌, refl, ◌⊎◌, inl, inr, sym, ◌∙◌, ap, subst, arith}
use ops_guard.Errors.{Result, ok, err}
use ops_guard.Store.{AuditEvent, EventType, Outcome}
use ops_guard.Env.{Env}
use ops_guard.World.{World}
use ops_guard.World.Steps.{bind-ok, if-ok, after-ok, ok-injective}
use ops_guard.World.Within.{Quiet}
use ops_guard.Audit.{append}
use ops_guard.Audit.Order.{EndsWith, append-EndsWith}
use ops_guard.Proposals.{FrozenProposal}
use ops_guard.Gate.Stage as S
use ops_guard.Gate.Stage.{ExecutionRequest, Gate, GateOutcome, Refusal, Verdict, passed, escaped}
use ops_guard.Gate.Checks.{checks}
use ops_guard.Gate.Idle.{checks-Idle}
use ops_guard.Gate.Dispatch.{
  Cleared, Executor, consume_and_start, is_dispatch_refusal, dispatch_refusal,
}
use ops_guard.Gate.Dispatch.Runs.{consume_and_start-Quiet}
use ops_guard.Gate.Dispatch.Completed.{IsCompleted, run_executor-Completes}
use ops_guard.Gate.Execute.Safety.{record_refusal-Quiet}
use package.ops_guard.Gate.Execute.{
  refusal_entry, refused_outcome, record_refusal, settle_dispatch, dispatch, conclude, execute,
}

module _ (env : Env) (gate : Gate) (request : ExecutionRequest) where
  -- The event is of the refusal: of its proposal and failure code, and its outcome is `refused`.
  pub record IsRefusal (refusal : Refusal) (e : AuditEvent) : Type 0 where
    pub event_type : e.event_type ≡ EventType.refusal
    pub proposal_ref : e.proposal_ref ≡ refusal.proposal_id
    pub failure_code : e.failure_code ≡ refusal.failure_code
    pub outcome : e.outcome ≡ some Outcome.refused

  -- Nothing ran, and the log ends with the refusal that is returned.
  pub record IsRefused (o : GateOutcome) (before after : World) : Type 0 where
    pub refusal : Refusal
    pub returned : o ≡ refused_outcome refusal
    pub logged : EndsWith env (refusal_entry request refusal) after.db
    pub named : IsRefusal refusal logged.event
    pub quiet : after.ran ≡ before.ran

  -- The checks passed in the world `before`, the consume transaction then returned, and the log ends
  -- with the outcome of the execution that they cleared.
  pub record IsDispatched (o : GateOutcome) (before after : World) : Type 0 where
    pub cleared : Cleared
    pub checked : (checks env gate request before).0 ≡ passed cleared
    pub consumed : FrozenProposal
    pub started :
        (consume_and_start env gate request cleared (checks env gate request before).1).0
        ≡ ok consumed
    pub completed : IsCompleted env gate request cleared o after.db

  abbrev pub IsRecorded : GateOutcome → World → World → Type 0
  IsRecorded o before after = IsRefused o before after ⊎ IsDispatched o before after

  record_refusal-IsRefused :
      (r : Refusal) (w w' : World) (o : GateOutcome)
      → record_refusal env gate request r w ≡ (ok o, w')
      → IsRefused o w w'
  unfolding record_refusal
  record_refusal-IsRefused r w w' o h =
      bind-ok (append env (refusal_entry request r)) _ w h λ e w1 p q.
        let logged =
          subst (λ v. EndsWith env (refusal_entry request r) v.db) (ap (λ x. x.1) q)
            (append-EndsWith env (refusal_entry request r) w p) in
        record {
          refusal = r;
          returned = sym (ok-injective (ap (λ x. x.0) q));
          logged = logged;
          named = record {
            event_type = logged.is_event.event_type;
            proposal_ref = logged.is_event.proposal_ref;
            failure_code = logged.is_event.failure_code;
            outcome = logged.is_event.outcome;
          };
          quiet = after-ok Quiet _ w (record_refusal-Quiet env gate request r) h;
        }

  module _ (executor : Executor) (w : World) where
    -- The refusal of a call that started in `w`
    refused-IsRecorded :
        (r : Refusal) (v w' : World) (o : GateOutcome)
        → v.ran ≡ w.ran
        → record_refusal env gate request r v ≡ (ok o, w')
        → IsRecorded o w w'
    refused-IsRecorded r v w' o quiet h =
        let is = record_refusal-IsRefused r v w' o h in
        inl (record {
          refusal = is.refusal;
          returned = is.returned;
          logged = is.logged;
          named = is.named;
          quiet = is.quiet ∙ quiet;
        })

    settle-IsRecorded :
        (cleared : Cleared) (r : Result FrozenProposal) (v w' : World) (o : GateOutcome)
        → (checks env gate request w).0 ≡ passed cleared
        → (consume_and_start env gate request cleared (checks env gate request w).1).0 ≡ r
        → v.ran ≡ w.ran
        → settle_dispatch env gate request executor cleared r v ≡ (ok o, w')
        → IsRecorded o w w'
    unfolding settle_dispatch
    settle-IsRecorded cleared (ok consumed) v w' o checked started quiet h = inr (record {
      cleared = cleared;
      checked = checked;
      consumed = consumed;
      started = started;
      completed = run_executor-Completes env gate request cleared executor consumed v w' o h;
    })
    settle-IsRecorded cleared (err e) v w' o checked started quiet h =
        elim (if-ok (is_dispatch_refusal e) _ _ v h) [
          | inl (_, p) ↦ refused-IsRecorded (dispatch_refusal cleared e) v w' o quiet p
          | inr (_, p) ↦ absurd (ground arith)
        ]

    dispatch-IsRecorded :
        (cleared : Cleared) (w' : World) (o : GateOutcome)
        → (checks env gate request w).0 ≡ passed cleared
        → dispatch env gate request executor cleared (checks env gate request w).1 ≡ (ok o, w')
        → IsRecorded o w w'
    unfolding dispatch
    dispatch-IsRecorded cleared w' o checked h =
        let middle = (checks env gate request w).1 in
        settle-IsRecorded cleared _ _ w' o checked refl
          ((consume_and_start-Quiet env gate request cleared).at middle
            ∙ ((checks-Idle env gate request).at w).quiet)
          h

    conclude-IsRecorded :
        (v : Verdict Cleared) (w' : World) (o : GateOutcome)
        → (checks env gate request w).0 ≡ v
        → conclude env gate request executor v (checks env gate request w).1 ≡ (ok o, w')
        → IsRecorded o w w'
    unfolding conclude
    conclude-IsRecorded (passed cleared) w' o is h = dispatch-IsRecorded cleared w' o is h
    conclude-IsRecorded (S.refused r) w' o is h =
        refused-IsRecorded r _ w' o ((checks-Idle env gate request).at w).quiet h
    conclude-IsRecorded (escaped e) w' o is h = absurd (ground arith)

  -- Every outcome that `execute` returns is recorded. Either it is a refusal, nothing ran, and the
  -- log ends with this refusal. Or the checks passed, the transaction that consumes the token
  -- returned, the outcome is dispatched, and the log ends with the execution outcome that is
  -- returned, under the id, digest and authorization path of the proposal that the checks cleared.
  pub execute-IsRecorded :
      (executor : Executor) (w w' : World) (o : GateOutcome)
      → execute env gate request executor w ≡ (ok o, w')
      → IsRecorded o w w'
  unfolding execute
  execute-IsRecorded executor w w' o h = conclude-IsRecorded executor w _ w' o refl h
