-- ===== src/Tools/Search.antt =====
-- retrieval.py: the tool `search_runbook`, which records a search before it returns its results.
pub mod Audited
use ops_guard.Prelude.{ℕ, String, Bool, true, false, Option, none, some, List, [], ◌∷◌, ◌⊕◌}
use ops_guard.Json.{Json, Items, Fields, str, arr, obj, nil, cons, end, field, nat, strs}
use ops_guard.Errors.{
  Error, Result, ok, err, message, sqlite_error, integrity_error, audit_write_failure,
}
use ops_guard.Store.{EventType, AuditEvent}
use ops_guard.Env.{Env}
use ops_guard.World.{World, Exec, pure, lift, ◌>>=◌, ◌>>◌, new_uuid, transaction}
use ops_guard.Audit.{Entry, entry, append_on}
use ops_guard.Audit.Redact.{fingerprint}
use package.ops_guard.Tools.{converted}
use ops_guard.Runbooks.{Library}
use ops_guard.Runbooks.Search.{SearchResult, search_library}

-- One of the `references`
abbrev reference : SearchResult → Json
reference r = obj (
    field "runbook_id" (str r.runbook_id) (
      field "revision" (str r.revision) (
        field "content_hash" (str r.content_hash) (
          field "locator" (str r.locator) (
            field "operation"
              (obj (strs (("action", r.operation_action) ∷ ("target", r.operation_target) ∷ [])))
              end)))))

abbrev references : List SearchResult → Items
references [] = nil
references (r ∷ rs) = cons (reference r) (references rs)

-- The two events of a search
abbrev pub request_entry : String → ℕ → String → Entry
request_entry print limit correlation =
    let plain =
      entry EventType.request
        (field "question_fingerprint" (str print) (field "limit" (nat limit) end)) in
    record plain { correlation_id = some correlation }

abbrev pub guidance_entry : List SearchResult → String → Entry
guidance_entry results correlation =
    let plain = entry EventType.guidance (field "results" (arr (references results)) end) in
    record plain { correlation_id = some correlation }

-- `except sqlite3.Error as error: raise AuditWriteFailure(…)`
unfoldable pub search_failure : Error → Error
search_failure (sqlite_error s) = audit_write_failure ("required search audit failed: " ⊕ s)
search_failure (integrity_error s) = audit_write_failure ("required search audit failed: " ⊕ s)
search_failure error = error

module _ (env : Env) where
  -- The transaction's body
  unfoldable pub record_search : String → ℕ → List SearchResult → String → Exec (Unit {0})
  record_search question limit results correlation = do
    print ← lift (fingerprint env env.fingerprint_key (str question))
    _ ← append_on env (request_entry print limit correlation)
    _ ← append_on env (guidance_entry results correlation)
    pure tt

  -- `search_runbook`; what it returns is `_result_to_dict` of each result.
  unfoldable pub search_runbook : Library → String → ℕ → Exec (List SearchResult)
  unfolding record_search
  search_runbook library question limit = do
    results ← lift (search_library library question limit)
    correlation ← new_uuid env
    converted search_failure (transaction env (record_search question limit results correlation))
    pure results
