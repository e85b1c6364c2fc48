-- ===== src/Recovery/Settled.antt =====
-- recovery.py: a sweep adds at most one terminal outcome for each interrupted execution.
use ops_guard.Prelude.{
  ℕ, ◌≤◌, String, Bool, true, false, ◌&&◌, Option, none, some, List, [], ◌∷◌, ◌++◌, ◌≡◌, refl, sym,
  ◌∙◌, ap, subst, arith, count_if, count_if-append, eq_iff, Bool-cases, inl, inr,
}
use ops_guard.Errors.{ok}
use ops_guard.Store.{AuditEvent}
use ops_guard.Env.{Env}
use ops_guard.World.{World, gets, tick}
use ops_guard.World.Steps.{bind-ok, if-ok, ok-injective}
use ops_guard.World.Atomic.{begun, transaction-done}
use ops_guard.Audit.{append_on}
use ops_guard.Audit.Order.{append_on-IsEvent}
use ops_guard.Recovery.Interrupted.{
  IsStart, AllStarts, starts-AllStarts, IsOwnerDead, probe-IsOwnerDead, Recovers, same, recover,
}
use package.ops_guard.Recovery.{
  Verdict, alive, dead, indeterminate, Reconciliation, starts, has_terminal, is_outcome, sql_eq,
  is_start, recovery_entry, settle_start, reconcile_start, reconcile_each,
  reconcile_interrupted_executions,
}

module _ (env : Env) (log : List AuditEvent) where
  Recovers-trans :
      {a b : List AuditEvent} (c : List AuditEvent)
      → Recovers env log a b
      → Recovers env log b c
      → Recovers env log a c
  Recovers-trans _ p same = p
  Recovers-trans _ p (recover after start e q s h d i) =
      recover after start e (Recovers-trans after p q) s h d i

  settle_start-Recovers :
      (start : AuditEvent) (v : Verdict) (w w' : World) (rs : List Reconciliation)
      → IsStart log start
      → (v ≡ dead → IsOwnerDead env start)
      → has_terminal start.proposal_ref w.db.events ≡ false
      → settle_start env start v w ≡ (ok rs, w')
      → Recovers env log w.db.events w'.db.events
  unfolding settle_start
  settle_start-Recovers start dead w w' rs is_start owner unended h =
      bind-ok (append_on env (recovery_entry start)) _ w h λ e w1 p q.
        let (stored, is) = append_on-IsEvent env (recovery_entry start) w p in
        subst (Recovers env log w.db.events)
          (sym (ap (λ db. db.events) stored) ∙ ap (λ x. x.1.db.events) q)
          (recover w.db.events start e same is_start unended (owner refl) (record {
            event_type = is.event_type;
            correlation_id = is.correlation_id;
            proposal_ref = is.proposal_ref;
            outcome = is.outcome;
            failure_code = is.failure_code;
          }))
  settle_start-Recovers start alive w w' rs is_start owner unended h =
      subst (Recovers env log w.db.events) (ap (λ x. x.1.db.events) h) same
  settle_start-Recovers start indeterminate w w' rs is_start owner unended h =
      subst (Recovers env log w.db.events) (ap (λ x. x.1.db.events) h) same

  reconcile_start-Recovers :
      (start : AuditEvent) (w w' : World) (rs : List Reconciliation)
      → IsStart log start
      → reconcile_start env start w ≡ (ok rs, w')
      → Recovers env log w.db.events w'.db.events
  unfolding reconcile_start
  reconcile_start-Recovers start w w' rs is_start h =
      bind-ok (gets (λ db. has_terminal start.proposal_ref db.events)) _ w h λ terminal w1 p h1.
        let kept : w1.db.events ≡ w.db.events = sym (ap (λ x. x.1.db.events) p) in
        elim (if-ok terminal _ _ w1 h1) [
          | inl (_, done) ↦
              subst (Recovers env log w.db.events) (sym kept ∙ ap (λ x. x.1.db.events) done) same
          | inr (unended, go) ↦ bind-ok tick _ w1 go λ at w2 q h2.
              let kept2 : w2.db.events ≡ w.db.events = sym (ap (λ x. x.1.db.events) q) ∙ kept in
              let still : has_terminal start.proposal_ref w2.db.events ≡ false =
                ap (has_terminal start.proposal_ref) kept2
                ∙ ok-injective (ap (λ x. x.0) p)
                ∙ unended in
              subst (λ es. Recovers env log es w'.db.events) kept2
                (settle_start-Recovers start _ w2 w' rs is_start (probe-IsOwnerDead env start at)
                  still h2)
        ]

  reconcile_each-Recovers :
      (found : List AuditEvent) (w w' : World) (rs : List Reconciliation)
      → AllStarts log found
      → reconcile_each env found w ≡ (ok rs, w')
      → Recovers env log w.db.events w'.db.events
  unfolding reconcile_each
  reconcile_each-Recovers [] w w' rs all h =
      subst (Recovers env log w.db.events) (ap (λ x. x.1.db.events) h) same
  reconcile_each-Recovers (start ∷ rest) w w' rs all h =
      bind-ok (reconcile_start env start) _ w h λ first w1 p h1.
        bind-ok (reconcile_each env rest) _ w1 h1 λ more w2 q h2.
          subst (Recovers env log w.db.events) (ap (λ x. x.1.db.events) h2) (
            Recovers-trans w2.db.events (reconcile_start-Recovers start w w1 first all.0 p)
              (reconcile_each-Recovers rest w1 w2 more all.1 q))

-- A sweep that returns has only added recovery outcomes at the end of the log that it found. Each
-- refers to an execution start of that log, which had no terminal outcome when the recovery was
-- added, and which names an owner whose lock was free when the sweep looked.
pub reconcile-Recovers :
    (env : Env) (w w' : World) (rs : List Reconciliation)
    → reconcile_interrupted_executions env w ≡ (ok rs, w')
    → Recovers env (begun env w).db.events (begun env w).db.events w'.db.events
unfolding reconcile_interrupted_executions
reconcile-Recovers env w w' rs h =
    let log = (begun env w).db.events in
    let (w1, go, committed) = transaction-done env _ w h in
    bind-ok (gets (λ db. starts db.events)) _ (begun env w) go λ found w2 p q.
      let all : AllStarts log found =
        subst (AllStarts log) (ok-injective (ap (λ x. x.0) p))
          (starts-AllStarts log log (λ e m. m)) in
      subst (Recovers env log log) (sym (ap (λ db. db.events) committed)) (
        subst (λ es. Recovers env log es w1.db.events) (sym (ap (λ x. x.1.db.events) p))
          (reconcile_each-Recovers env log found w2 w1 rs all q))

-- A terminal outcome of the proposal
abbrev pub ends : String → AuditEvent → Bool
ends proposal e = is_outcome e.event_type e.outcome && sql_eq e.proposal_ref (some proposal)

-- How many terminal outcomes the log has for a proposal
abbrev pub terminals : String → List AuditEvent → ℕ
terminals proposal es = count_if (ends proposal) es

has_terminal-none :
    (proposal : String) (es : List AuditEvent)
    → has_terminal (some proposal) es ≡ false
    → terminals proposal es ≡ 0
unfolding has_terminal count_if
has_terminal-none proposal [] h = refl
has_terminal-none proposal (e ∷ es) h = ground (arith, has_terminal-none proposal es)

sql_eq_sound :
    (ref : Option String) (proposal : String)
    → sql_eq ref (some proposal) ≡ true
    → ref ≡ some proposal
sql_eq_sound none proposal h = absurd (ground arith)
sql_eq_sound (some r) proposal h = ap some ((eq_iff r proposal).0 h)

added-terminals :
    (proposal : String) (es : List AuditEvent) (e : AuditEvent)
    → has_terminal e.proposal_ref es ≡ false
    → terminals proposal es ≤ 1
    → terminals proposal (es ++ e ∷ []) ≤ 1
unfolding count_if
added-terminals proposal es e h le = elim (Bool-cases (ends proposal e)) [
  | inr other ↦ ground (arith, count_if-append (ends proposal) es (e ∷ []))
  | inl hit ↦
      let ref : e.proposal_ref ≡ some proposal =
        sql_eq_sound e.proposal_ref proposal (ground arith) in
      let first : terminals proposal es ≡ 0 =
        has_terminal-none proposal es (subst (λ r. has_terminal r es ≡ false) ref h) in
      ground (arith, count_if-append (ends proposal) es (e ∷ []))
]

reconcile-terminals :
    (env : Env) (proposal : String) (log before after : List AuditEvent)
    → Recovers env log before after
    → terminals proposal before ≤ 1
    → terminals proposal after ≤ 1
reconcile-terminals env proposal log before _ same le = le
reconcile-terminals env proposal log before _ (recover after start e r s h d i) le =
    added-terminals proposal after e
      (subst (λ ref. has_terminal ref after ≡ false) (sym i.proposal_ref) h)
      (reconcile-terminals env proposal log before after r le)

-- A sweep that returns leaves a proposal that had at most one terminal outcome, when the sweep got
-- the write lock, with at most one.
pub reconcile-at_most_one :
    (env : Env) (w w' : World) (rs : List Reconciliation) (proposal : String)
    → reconcile_interrupted_executions env w ≡ (ok rs, w')
    → terminals proposal (begun env w).db.events ≤ 1
    → terminals proposal w'.db.events ≤ 1
reconcile-at_most_one env w w' rs proposal h le =
    reconcile-terminals env proposal _ _ _ (reconcile-Recovers env w w' rs h) le
