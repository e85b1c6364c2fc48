-- ===== src/Gate/Binding.antt =====
-- gate.py, `execute` up to the evidence match: evidence, token, execution binding, script and
-- catalog.
pub mod Idle
pub mod Facts
use ops_guard.Prelude.{
  ℕ, String, Bool, true, false, ◌&&◌, Option, none, some, List, [], ◌∷◌, ◌==◌, ◌⊕◌, if◌then◌else◌,
  find,
}
use ops_guard.Json.{Json, Fields, arr, items}
use ops_guard.Errors.{
  Error, Result, ok, err, message, is_proposal_error, malformed_runbook, unknown_passage,
  unknown_token, token_expired, token_consumed,
}
use ops_guard.Env.{Env, document_digest, canonicalize_json}
use ops_guard.Store.{BindingRow, ExecutionBinding}
use ops_guard.World.{World, Exec, lift, pure, read, tick}
use ops_guard.Runbooks.{Citation, CitedPassage, Library, resolve_citation}
use ops_guard.Authorization.{ScriptIdentity, precondition_items}
use ops_guard.ExecutionBinding.{
  Catalog, CatalogEntry, RunnerProfile, CatalogKey, has_catalog_key, binding_digest, entry_digest,
  profile_digest,
}
use ops_guard.Proposals.{FrozenProposal, resolve, fetch_binding_on}
use ops_guard.Gate.Stage.{
  ExecutionRequest, Gate, Refusal, Verdict, Stage, pass, refuse, require, ◌>>=◌, ◌>>◌, attempt,
  call,
}

abbrev plain : String → Refusal
plain reason = record {
  reason = reason;
  proposal_id = none;
  digest = none;
  failure_code = none;
  observation = none;
}

-- A refusal once the token has been resolved
abbrev pub for_proposal : FrozenProposal → String → Option String → Refusal
for_proposal frozen reason code = record {
  reason = reason;
  proposal_id = some frozen.proposal_id;
  digest = some frozen.invocation_digest;
  failure_code = code;
  observation = none;
}

evidence_handler : Error → Option Refusal
evidence_handler (malformed_runbook s) = some (plain ("evidence rejected: " ⊕ s))
evidence_handler (unknown_passage s) = some (plain ("evidence rejected: " ⊕ s))
evidence_handler _ = none

-- Step 1: the citation resolves in the verified library.
unfoldable pub resolve_evidence : Gate → ExecutionRequest → Stage CitedPassage
unfolding evidence_handler
resolve_evidence gate request =
    attempt (lift (resolve_citation gate.runbooks request.citation)) evidence_handler

token_handler : Error → Option Refusal
token_handler (unknown_token s) = some (plain ("token unknown: " ⊕ s))
token_handler (token_expired s) = some (plain ("token expired: " ⊕ s))
token_handler (token_consumed s) = some (plain ("token already consumed: " ⊕ s))
token_handler e =
    if is_proposal_error e then some (plain ("token rejected: " ⊕ message e)) else none

-- Step 3: the token is valid and the frozen invocation re-derives its digest.
unfoldable pub resolve_token : Env → ExecutionRequest → Stage FrozenProposal
unfolding token_handler
resolve_token env request =
    attempt (resolve env request.token request.expected_digest) token_handler

-- Step 3b on the stored row
check_binding : Env → FrozenProposal → Option BindingRow → Stage BindingRow
check_binding env frozen none =
    refuse (for_proposal frozen "proposal carries no execution binding" (some "binding-missing"))
check_binding env frozen (some row) = do
  derived ← call (lift (binding_digest env row.document))
  require (row.binding_digest == derived)
      (for_proposal frozen "the stored execution binding is corrupt" (some "binding-corrupt"))
  require (row.document.invocation_digest == frozen.invocation_digest) (
      for_proposal frozen "the execution binding diverges from the frozen invocation"
        (some "binding-mismatch"))
  pass row

-- Step 3b: the immutable execution binding.
unfoldable pub resolve_binding_row : Env → FrozenProposal → Stage BindingRow
unfolding check_binding
resolve_binding_row env frozen = do
  row ← call (read env (fetch_binding_on env frozen.proposal_id))
  check_binding env frozen row

-- What the script source gave
abbrev script_or_refuse : FrozenProposal → Option String → Stage String
script_or_refuse frozen none =
    refuse (for_proposal frozen "script could not be resolved" (some "binding-script-unresolved"))
script_or_refuse frozen (some bytes) = pass bytes

-- Step 4: the bytes of the bound path hash to the bound digest.
unfoldable pub resolve_script : Env → FrozenProposal → ExecutionBinding → Stage String
resolve_script env frozen binding = do
  at ← call tick
  bytes ← script_or_refuse frozen (env.script_source at binding.script_path)
  require (env.sha256 bytes == binding.script_sha256) (
      for_proposal frozen "the resolved script bytes do not match the bound script digest"
        (some "binding-script-mismatch"))
  pass bytes

abbrev catalog_changed : FrozenProposal → Refusal
catalog_changed frozen =
    for_proposal frozen "the catalog no longer maps this proposal's bound script"
      (some "binding-catalog-changed")

abbrev profile_changed : FrozenProposal → Refusal
profile_changed frozen =
    for_proposal frozen "the runner profile has changed since this proposal was bound"
      (some "binding-profile-changed")

check_entry : Env → FrozenProposal → ExecutionBinding → Option CatalogEntry → Stage (Unit {0})
check_entry env frozen binding none = refuse (catalog_changed frozen)
check_entry env frozen binding (some entry) = do
  derived ← call (lift (entry_digest env entry))
  require
      (derived == binding.catalog_entry_digest
        && (entry.script_sha256 == binding.script_sha256
            && entry.script_path == binding.script_path))
      (catalog_changed frozen)

check_profile : Env → FrozenProposal → ExecutionBinding → Option RunnerProfile → Stage (Unit {0})
check_profile env frozen binding none = refuse (profile_changed frozen)
check_profile env frozen binding (some profile) = do
  derived ← call (lift (profile_digest env profile))
  require (derived == binding.runner_profile_digest) (profile_changed frozen)

-- `catalog_profiles.get(id)`
unfoldable pub find_profile : String → List RunnerProfile → Option RunnerProfile
find_profile id profiles = find (λ p. p.profile_id == id) profiles

-- `catalog_entries.get(key)`
unfoldable pub find_entry : CatalogKey → List CatalogEntry → Option CatalogEntry
find_entry key entries = find (has_catalog_key key) entries

abbrev pub bound_key : FrozenProposal → ExecutionBinding → CatalogKey
bound_key frozen binding = record {
  runbook_id = binding.runbook_id;
  revision = binding.runbook_revision;
  content_hash = binding.runbook_content_hash;
  action = frozen.invocation.action;
  target = frozen.invocation.target;
}

-- The catalog, where one is configured, still maps the bound script and runner.
unfoldable pub check_catalog :
    Env → Option Catalog → FrozenProposal → ExecutionBinding → Stage (Unit {0})
unfolding check_entry check_profile
check_catalog env none frozen binding = pass tt
check_catalog env (some catalog) frozen binding = do
  check_entry env frozen binding (find_entry (bound_key frozen binding) catalog.entries)
  check_profile env frozen binding (find_profile binding.runner_profile_id catalog.profiles)

-- The evidence describes the frozen invocation.
unfoldable pub match_evidence :
    Env → ExecutionRequest → FrozenProposal → CitedPassage → Stage (Unit {0})
match_evidence env request frozen evidence =
    let refusal = for_proposal frozen "evidence does not describe the frozen invocation" none in
    if frozen.invocation.action == evidence.operation_action
      && (frozen.invocation.target == evidence.operation_target
          && frozen.invocation.runbook_revision_hash == request.citation.content_hash)
    then (do
      mine ← call (lift (canonicalize_json env (arr frozen.invocation.preconditions)))
      theirs ← call (lift (canonicalize_json env (arr (precondition_items evidence.preconditions))))
      require (mine == theirs) refusal)
    else refuse refusal
