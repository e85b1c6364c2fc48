-- ===== src/Store.antt =====
-- The shared SQLite database (store.py, approvals.py, audit.py): its four tables as lists of rows
-- in insertion order, with the statements that the code runs on them.
--
-- The columns that hold `format_timestamp` texts hold the instant, in microseconds: the text is
-- fixed-width UTC, so SQL's order of texts is the order of instants.
pub mod Rows
pub mod Guard
use ops_guard.Prelude.{
  ℕ, ◌+◌, max, String, Bool, true, false, ◌&&◌, ◌||◌, Option, none, some, List, [], ◌∷◌, ◌++◌, ◌==◌,
  ltb, if◌then◌else◌, find,
}
use ops_guard.Json.{Json}

pub data ProposalState : Type 0 where
  active consumed : ProposalState

pub data ApprovalState : Type 0 where
  recorded used : ApprovalState

pub data Outcome : Type 0 where
  success failure unknown refused : Outcome

pub data EventType : Type 0 where
  request guidance proposal execution_start execution_outcome refusal : EventType

-- `CREATE TABLE proposals`
pub record ProposalRow : Type 0 where
  pub proposal_id : String
  pub invocation_bytes : String
  pub invocation_digest : String
  pub token_digest : String
  pub created_at : ℕ
  pub expires_at : ℕ
  pub state : ProposalState
  pub consumed_at : Option ℕ

-- `ExecutionBinding` of execution_binding.py, the document of an `execution_bindings` row
pub record ExecutionBinding : Type 0 where
  pub proposal_id : String
  pub invocation_digest : String
  pub runbook_id : String
  pub runbook_revision : String
  pub runbook_content_hash : String
  pub script_id : String
  pub script_path : String
  pub script_sha256 : String
  pub catalog_entry_digest : String
  pub runner_profile_id : String
  pub runner_profile_digest : String

-- `CREATE TABLE execution_bindings`
pub record BindingRow : Type 0 where
  pub proposal_id : String
  pub binding_digest : String
  pub document : ExecutionBinding

-- `CREATE TABLE approvals`
pub record ApprovalRow : Type 0 where
  pub approval_id : String
  pub token_digest : String
  pub proposal_id : String
  pub operator_identity : String
  pub invocation_digest : String
  pub runbook_revision_hash : String
  pub expires_at : ℕ
  pub created_at : ℕ
  pub state : ApprovalState
  pub used_at : Option ℕ
  pub execution_binding_digest : Option String

-- `AuditEvent` of audit.py, and `CREATE TABLE audit_events`
pub record AuditEvent : Type 0 where
  pub sequence : ℕ
  pub event_id : String
  pub schema_version : ℕ
  pub recorded_at : ℕ
  pub event_type : EventType
  pub correlation_id : Option String
  pub proposal_ref : Option String
  pub invocation_digest : Option String
  pub evidence_refs : List String
  pub authorization_path : Option String
  pub judge_snapshot : Option Json
  pub payload : Json
  pub outcome : Option Outcome
  pub failure_code : Option String

pub record Db : Type 0 where
  pub proposals : List ProposalRow
  pub bindings : List BindingRow
  pub approvals : List ApprovalRow
  pub events : List AuditEvent

abbrev pub empty : Db
empty = record { proposals = []; bindings = []; approvals = []; events = [] }

abbrev pub is_active : ProposalState → Bool
is_active active = true
is_active consumed = false

abbrev pub is_recorded : ApprovalState → Bool
is_recorded recorded = true
is_recorded used = false

-- `SELECT * FROM proposals WHERE token_digest = ?`
unfoldable pub proposal_by_token : Db → String → Option ProposalRow
proposal_by_token db digest = find (λ r. r.token_digest == digest) db.proposals

-- `SELECT * FROM proposals WHERE proposal_id = ?`
unfoldable pub proposal_by_id : Db → String → Option ProposalRow
proposal_by_id db id = find (λ r. r.proposal_id == id) db.proposals

-- `SELECT binding_digest, document FROM execution_bindings WHERE proposal_id = ?`
unfoldable pub binding_by_id : Db → String → Option BindingRow
binding_by_id db id = find (λ r. r.proposal_id == id) db.bindings

-- `ApprovalStore.fetch_on`: `SELECT * FROM approvals WHERE token_digest = ?`
unfoldable pub approval_by_token : Db → String → Option ApprovalRow
approval_by_token db digest = find (λ r. r.token_digest == digest) db.approvals

-- `UPDATE proposals SET state = 'consumed', consumed_at = ?
--  WHERE token_digest = ? AND state = 'active' AND expires_at > ?`
unfoldable pub consume_row : String → ℕ → ProposalRow → ProposalRow
consume_row digest now r =
    if r.token_digest == digest && (is_active r.state && ltb now r.expires_at)
    then record r { state = consumed; consumed_at = some now }
    else r

unfoldable pub consume_rows : String → ℕ → List ProposalRow → List ProposalRow
unfolding consume_row
consume_rows digest now [] = []
consume_rows digest now (r ∷ rs) = consume_row digest now r ∷ consume_rows digest now rs

-- Whether the update above applies to a row: `cursor.rowcount` is 1, since the digest is unique.
unfoldable pub consumable : String → ℕ → List ProposalRow → Bool
consumable digest now [] = false
consumable digest now (r ∷ rs) =
    r.token_digest == digest && (is_active r.state && ltb now r.expires_at)
    || consumable digest now rs

-- `ApprovalStore.mark_used_on`: `UPDATE approvals SET state = 'used', used_at = ?
--  WHERE token_digest = ? AND state = 'recorded'`
unfoldable pub spend_row : String → ℕ → ApprovalRow → ApprovalRow
spend_row digest now r =
    if r.token_digest == digest && is_recorded r.state
    then record r { state = used; used_at = some now }
    else r

unfoldable pub spend_rows : String → ℕ → List ApprovalRow → List ApprovalRow
unfolding spend_row
spend_rows digest now [] = []
spend_rows digest now (r ∷ rs) = spend_row digest now r ∷ spend_rows digest now rs

unfoldable pub spendable : String → List ApprovalRow → Bool
spendable digest [] = false
spendable digest (r ∷ rs) = r.token_digest == digest && is_recorded r.state || spendable digest rs

-- `AuditStore.next_sequence_on`: `COALESCE(MAX(sequence), 0)`, plus one
unfoldable pub last_sequence : List AuditEvent → ℕ
last_sequence [] = 0
last_sequence (e ∷ es) = max e.sequence (last_sequence es)

unfoldable pub next_sequence_on : Db → ℕ
unfolding last_sequence
next_sequence_on db = last_sequence db.events + 1
