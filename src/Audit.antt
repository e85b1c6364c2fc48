-- ===== src/Audit.antt =====
-- audit.py: the audit log. Every event is one row, numbered inside the transaction that adds it.
pub mod Keys
pub mod Redact
pub mod Order
pub mod Quiet
pub mod Unended
use ops_guard.Prelude.{
  ℕ, suc, ◌+◌, String, Option, none, some, List, [], ◌∷◌, ◌++◌, Bool, true, false, ◌==◌, ◌&&◌, ◌||◌,
  ◌⊕◌, eqb, if◌then◌else◌,
}
use ops_guard.Json.{Json, Fields, obj, arr, texts}
use ops_guard.Errors.{Result, ok, err, message, audit_write_failure, integrity_error, value_error}
use ops_guard.Store.{AuditEvent, EventType, Outcome, Db, next_sequence_on}
use ops_guard.Env.{Env}
use ops_guard.World.{
  World, Exec, pure, raise, lift, ◌>>=◌, ◌>>◌, gets, modify, now, new_uuid, sqlite, transaction,
}
use ops_guard.Audit.Keys.{default_sensitive_keys}
use package.ops_guard.Audit.Redact.{redact}

-- The keyword arguments of `AuditLog.append`.
pub record Entry : Type 0 where
  pub event_type : EventType
  pub payload : Fields
  pub correlation_id : Option String
  pub proposal_ref : Option String
  pub invocation_digest : Option String
  pub evidence_refs : List String
  pub authorization_path : Option String
  pub judge_snapshot : Option Json
  pub outcome : Option Outcome
  pub failure_code : Option String

-- The defaults of those arguments.
abbrev pub entry : EventType → Fields → Entry
entry type payload = record {
  event_type = type;
  payload = payload;
  correlation_id = none;
  proposal_ref = none;
  invocation_digest = none;
  evidence_refs = [];
  authorization_path = none;
  judge_snapshot = none;
  outcome = none;
  failure_code = none;
}

abbrev pub schema_version : ℕ
schema_version = 1

-- Every exception of the guarded block becomes `AuditWriteFailure`.
abbrev pub as_write_failure : {A : Type 0} → Result A × World → Result A × World
as_write_failure (ok a, w) = (ok a, w)
as_write_failure (err e, w) =
    (err (audit_write_failure ("required audit append failed: " ⊕ message e)), w)

unfoldable pub guarded : {A : Type 0} → Exec A → Exec A
guarded m w = as_write_failure (m w)

module _ (env : Env) where
  abbrev pub redact_payload : Json → Result Json
  redact_payload = redact env default_sensitive_keys (some env.fingerprint_key)

  abbrev pub redact_snapshot : Option Json → Result (Option Json)
  redact_snapshot none = ok none
  redact_snapshot (some j) = elim (redact_payload j) [ ok clean ↦ ok (some clean) | err e ↦ err e ]

  -- `AuditLog._build`
  unfoldable pub build : Entry → ℕ → ℕ → String → Result AuditEvent
  build a sequence moment event_id = elim (redact_snapshot a.judge_snapshot) [
    | err e ↦ err e
    | ok snapshot ↦ elim (redact_payload (obj a.payload)) [
      | err e ↦ err e
      | ok clean ↦ ok (record {
        sequence = sequence;
        event_id = event_id;
        schema_version = schema_version;
        recorded_at = moment;
        event_type = a.event_type;
        correlation_id = a.correlation_id;
        proposal_ref = a.proposal_ref;
        invocation_digest = a.invocation_digest;
        evidence_refs = a.evidence_refs;
        authorization_path = a.authorization_path;
        judge_snapshot = snapshot;
        payload = clean;
        outcome = a.outcome;
        failure_code = a.failure_code;
      })
    ]
  ]

  -- Whether `canonicalize_json` takes the value.
  abbrev canonicalizes : Json → Bool
  canonicalizes value = elim (env.canonicalize value) [ none ↦ false | some _ ↦ true ]

  abbrev canonicalizes_snapshot : Option Json → Bool
  canonicalizes_snapshot none = true
  canonicalizes_snapshot (some j) = canonicalizes j

  -- `sequence` is the primary key, and `event_id` is unique.
  abbrev clashes : AuditEvent → List AuditEvent → Bool
  clashes e [] = false
  clashes e (r ∷ rs) = eqb r.sequence e.sequence || (r.event_id == e.event_id || clashes e rs)

  -- `AuditStore.insert_on`
  unfoldable pub insert_event : AuditEvent → Exec AuditEvent
  insert_event e w =
      if canonicalizes (arr (texts e.evidence_refs))
        && (canonicalizes_snapshot e.judge_snapshot && canonicalizes e.payload)
      then (if clashes e w.db.events
          then raise (integrity_error "UNIQUE constraint failed: audit_events") w
          else (sqlite env >> modify (λ db. record db { events = db.events ++ e ∷ [] }) >> pure e)
              w)
      else raise (value_error "not canonicalizable") w

  -- `AuditLog.append_on`. The clock is read before the guarded block.
  unfoldable pub append_on : Entry → Exec AuditEvent
  append_on a = do
    moment ← now env
    event_id ← new_uuid env
    guarded (do
      sequence ← gets next_sequence_on
      event ← lift (build a sequence moment event_id)
      insert_event event)

  -- `AuditLog.append`: in a transaction of its own.
  unfoldable pub append : Entry → Exec AuditEvent
  append a = transaction env (append_on a)
