-- ===== src/Gate/Dispatch/Started.antt =====
-- gate.py: the one transaction that consumes the token, starts the execution and spends the approval.
use ops_guard.Prelude.{String, [], ◌∷◌, ◌++◌, ◌≡◌, sym, ◌∙◌, ap, subst}
use ops_guard.Errors.{ok}
use ops_guard.Store.{Db, AuditEvent, approval_by_token}
use ops_guard.Env.{Env}
use ops_guard.World.{World}
use ops_guard.World.Steps.{bind-ok}
use ops_guard.World.Atomic.{begun}
use ops_guard.Audit.{append_on}
use ops_guard.Audit.Order.{IsEvent, IsEvent-events, append_on-IsEvent}
use ops_guard.Approvals.Spent.{IsSpent, spend-IsSpent, spend-Keeps}
use ops_guard.Proposals.{FrozenProposal, token_digest}
use ops_guard.Proposals.Keeps.{Keeps, keeps_rules}
use ops_guard.Proposals.Keeps.Append.{append_on-Keeps}
use ops_guard.Proposals.Once.{IsConsumption, consume-IsConsumption}
use ops_guard.Gate.Stage.{ExecutionRequest, Gate}
use package.ops_guard.Gate.Dispatch.{Cleared, composed, start_entry, consume_and_start}

module _ (env : Env) (gate : Gate) (request : ExecutionRequest) (cleared : Cleared) where
  -- What the dispatch transaction does to the database
  pub record IsStarted (before after : Db) (consumed : FrozenProposal) : Type 0 where
    pub consumption :
        IsConsumption env request.token request.expected_digest
          (composed env gate request cleared)
          before
          after
          consumed
    pub start : AuditEvent
    pub logged : after.events ≡ before.events ++ start ∷ []
    pub is_start : IsEvent env (start_entry env gate request cleared) before start
    pub spent : IsSpent (approval_by_token after (token_digest env request.token))

  composed-Keeps : (digest : String) → Keeps (composed env gate request cleared digest)
  unfolding composed
  composed-Keeps digest = search (keeps_rules, append_on-Keeps, spend-Keeps)

  -- When the transaction returns: the token's proposal was live and is consumed, the log has the
  -- execution start as its next event and nothing else more, and the token has no unspent approval.
  pub consume_and_start-IsStarted :
      (w : World) {consumed : FrozenProposal} {w' : World}
      → consume_and_start env gate request cleared w ≡ (ok consumed, w')
      → IsStarted (begun env w).db w'.db consumed
  unfolding consume_and_start composed
  consume_and_start-IsStarted w {consumed} {w'} h =
      let c =
        consume-IsConsumption env request.token request.expected_digest
          (composed env gate request cleared) composed-Keeps w h in
      let digest = token_digest env request.token in
      bind-ok (append_on env (start_entry env gate request cleared)) _ c.callback.enter
        c.callback.called
        λ start w1 p spend.
          let (stored, is) = append_on-IsEvent env _ c.callback.enter p in
          let (_, logged, spent) = spend-IsSpent env request.token digest w1 spend in
          let entered : c.callback.enter.db.events ≡ (begun env w).db.events =
            ap (λ db. db.events) c.callback.entered in
          record {
            consumption = c;
            start = start;
            logged =
                ap (λ db. db.events) c.callback.committed
                ∙ logged
                ∙ ap (λ db. db.events) stored
                ∙ ap (λ es. es ++ start ∷ []) entered;
            is_start = IsEvent-events env _ c.callback.enter.db _ start entered is;
            spent =
                subst (λ db. IsSpent (approval_by_token db digest)) (sym c.callback.committed)
                  spent;
          }
