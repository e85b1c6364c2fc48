-- ===== src/Recovery.antt =====
-- recovery.py and owner.py: a sweep gives interrupted executions a terminal outcome, once the owner
-- of each is proven dead.
pub mod Interrupted
pub mod Settled
use ops_guard.Prelude.{
  ℕ, String, Bool, true, false, ◌&&◌, ◌||◌, Option, none, some, List, [], ◌∷◌, ◌++◌, ◌==◌,
  if◌then◌else◌,
}
use ops_guard.Json.{Json, obj, str, strs, lookup, as_text}
use ops_guard.Errors.{Result, ok, err}
use ops_guard.Store.{AuditEvent, Db, EventType, Outcome, unknown}
use ops_guard.Env.{Env, Lock, absent, unopenable, held, free}
use ops_guard.World.{World, Exec, pure, ◌>>=◌, gets, tick, transaction}
use ops_guard.Audit.{Entry, entry, append_on}

-- `_ALIVE`, `_DEAD` and `_INDETERMINATE`
pub data Verdict : Type 0 where
  alive dead indeterminate : Verdict

-- `action` of `Reconciliation`: "recovered", or the verdict
pub data Action : Type 0 where
  recovered : Action
  unresolved : Verdict → Action

pub record Reconciliation : Type 0 where
  pub owner : String
  pub proposal_ref : Option String
  pub action : Action

-- `ExecutionOwner.probe`, by the state of the lock file
unfoldable pub probe : String → Lock → Verdict
probe owner state = if owner == "" then indeterminate else elim state [
  | absent ↦ indeterminate
  | unopenable ↦ indeterminate
  | held ↦ alive
  | free ↦ dead
]

-- `_owner_of`
abbrev text_or_empty : Option String → String
text_or_empty none = ""
text_or_empty (some s) = s

unfoldable pub owner_of : Json → String
unfolding lookup
owner_of (obj fs) = text_or_empty (as_text (lookup "owner_id" fs))
owner_of _ = ""

abbrev pub is_start : EventType → Bool
is_start EventType.execution_start = true
is_start _ = false

-- `SELECT … WHERE event_type = 'execution_start'`
unfoldable pub starts : List AuditEvent → List AuditEvent
starts [] = []
starts (e ∷ es) = if is_start e.event_type then e ∷ starts es else starts es

abbrev is_outcome : EventType → Option Outcome → Bool
is_outcome EventType.execution_outcome (some _) = true
is_outcome _ _ = false

-- SQL's `=`: a null is equal to nothing.
abbrev sql_eq : Option String → Option String → Bool
sql_eq (some a) (some b) = a == b
sql_eq _ _ = false

-- `SELECT … WHERE event_type = 'execution_outcome' AND proposal_ref = ? AND outcome IS NOT NULL`
unfoldable pub has_terminal : Option String → List AuditEvent → Bool
has_terminal ref [] = false
has_terminal ref (e ∷ es) =
    is_outcome e.event_type e.outcome && sql_eq e.proposal_ref ref || has_terminal ref es

-- The recovery event of a start
abbrev pub recovery_entry : AuditEvent → Entry
recovery_entry start =
    let plain =
      entry EventType.execution_outcome
        (strs (("outcome", "unknown") ∷ ("recovery", "execution owner proven dead") ∷ [])) in
    record plain {
      correlation_id = start.correlation_id;
      proposal_ref = start.proposal_ref;
      outcome = some unknown;
      failure_code = some "owner-dead";
    }

abbrev report : AuditEvent → Action → Reconciliation
report start action = record {
  owner = owner_of start.payload;
  proposal_ref = start.proposal_ref;
  action = action;
}

module _ (env : Env) where
  -- What is done for a start without a terminal outcome, by the verdict on its owner
  unfoldable pub settle_start : AuditEvent → Verdict → Exec (List Reconciliation)
  settle_start start dead = do
    _ ← append_on env (recovery_entry start)
    pure (report start recovered ∷ [])
  settle_start start verdict = pure (report start (unresolved verdict) ∷ [])

  unfoldable pub reconcile_start : AuditEvent → Exec (List Reconciliation)
  reconcile_start start = do
    terminal ← gets (λ db. has_terminal start.proposal_ref db.events)
    if terminal then pure [] else (do
      at ← tick
      settle_start start (probe (owner_of start.payload) (env.lock at (owner_of start.payload))))

  -- The loop over the starts that the first query returned
  unfoldable pub reconcile_each : List AuditEvent → Exec (List Reconciliation)
  reconcile_each [] = pure []
  reconcile_each (start ∷ rest) =
      reconcile_start start >>= λ first. reconcile_each rest >>= λ more. pure (first ++ more)

  -- `reconcile_interrupted_executions`
  unfoldable pub reconcile_interrupted_executions : Exec (List Reconciliation)
  reconcile_interrupted_executions =
      transaction env (gets (λ db. starts db.events) >>= λ found. reconcile_each found)
