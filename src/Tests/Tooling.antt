-- ===== src/Tests/Tooling.antt =====
-- The tools of the server, the judge, and what a proposal's opening writes.
use ops_guard.Prelude.{ℕ, String, true, false, none, some, List, [], ◌∷◌, ◌≡◌, refl, arith}
use ops_guard.Errors.{Error, Result, ok, err, sqlite_error}
use ops_guard.Json.{Json, Fields, null, str, end, field, nat, lookup}
use ops_guard.Env.{Env}
use ops_guard.World.{World}
use ops_guard.World.Runs.{Runs}
use ops_guard.Store.{Db}
use ops_guard.World.Within.{Drifts}
use ops_guard.Invocation.{Invocation}
use ops_guard.ExecutionBinding.{Catalog, Template}
use ops_guard.Judge.Projection.{LocalJudge, ResultEntry, answered, fingerprint_of}
use ops_guard.Judge.{evaluate_question_map, Results}
use ops_guard.Judge.Closed.{AreAdvisories, Fingerprints, evaluate_question_map-AreAdvisories}
use ops_guard.Proposals.Open.{IssuedProposal, open_proposal}
use ops_guard.Proposals.Open.Stored.{IsOpened, open_proposal-IsOpened}
use ops_guard.Tools.Propose.{ProposeConfig, propose_fix, citation_ref}
use ops_guard.Tools.Propose.Proposed.{IsProposed, propose_fix-IsProposed, propose_fix-undo}
use ops_guard.Tools.Run.{IsAllowed, execute_fix, execute_fix-Runs}
use ops_guard.Tools.Search.{search_runbook}
use ops_guard.Tools.Search.Audited.{IsRecorded, search_runbook-IsRecorded}
use ops_guard.Runbooks.Search.{SearchResult, search_library}
use ops_guard.Gate.Dispatch.{injected}
use ops_guard.Tests.Fixture.{
  env, hash, print, invocation, citation, library, required, gate, standing, world,
}
use ops_guard.Tests.Documents.{digest}
use ops_guard.Invocation.{to_json}

abbrev judge : LocalJudge
judge = record {
  fingerprint = some (λ body. ok "print");
  model_digest = some "digest";
  parse = λ body. some body;
  run_question = λ envelope id. some (answered "trace" "review" end (nat 1));
  str_of = λ value. "None";
}

prints : Fingerprints judge
unfolding ops_guard.Judge.Projection.fingerprint_of
prints state id = (some "print", refl)

evaluate_question_map-AreAdvisories_example :
    (results : Results) × (evaluate_question_map judge null ("risk_class" ∷ "other" ∷ [])
      ≡ ok results)
    × AreAdvisories judge null ("risk_class" ∷ "other" ∷ []) results
evaluate_question_map-AreAdvisories_example =
    evaluate_question_map-AreAdvisories judge null prints ("risk_class" ∷ "other" ∷ [])

abbrev catalog : Catalog
catalog = record {
  entries =
      record {
        runbook_id = "restart-web";
        revision = "1";
        content_hash = "rev-1";
        action = "restart";
        target = "web-1";
        script_id = "s-1";
        script_path = "scripts/restart.py";
        script_sha256 = digest;
      }
      ∷ [];
  profiles =
      record {
        profile_id = "python";
        executable = "/usr/bin/python3";
        executable_sha256 = digest;
        argv = "/usr/bin/python3" ∷ "-I" ∷ [];
        working_directory = "/srv";
        env_allowlist = [];
        timeout_seconds = 60;
        output_limit = 4096;
      }
      ∷ [];
}

abbrev config : ProposeConfig
config = record { library = library; ttl = 60; judge = judge; execution_catalog = some catalog }

abbrev opened : World
opened = (open_proposal env invocation 60 (citation_ref citation) (some null) none world).1

abbrev issued : IssuedProposal
issued = record {
  proposal_id = "iu";
  token = "iiu";
  invocation_digest = hash (print (to_json invocation));
  expires_at = 160;
}

run_open :
    open_proposal env invocation 60 (citation_ref citation) (some null) none world
    ≡ (ok issued, opened)
unfolding ops_guard.Audit.Keys.is_sensitive ops_guard.Audit.Redact.redact ops_guard.Audit.append_on
    ops_guard.Audit.build ops_guard.Audit.guarded ops_guard.Audit.insert_event
    ops_guard.Env.canonicalize_json ops_guard.Env.loads_json ops_guard.Invocation.canonical_bytes
    ops_guard.Invocation.to_json ops_guard.Proposals.Open.open_proposal ops_guard.World.new_uuid
    ops_guard.World.now ops_guard.World.transaction ops_guard.World.◌>>=◌
    ops_guard.Invocation.reject_unrepresentable_numbers
run_open = refl

open_proposal-IsOpened_example :
    IsOpened env invocation 60 (citation_ref citation) (some null) none issued world opened
open_proposal-IsOpened_example =
    open_proposal-IsOpened env invocation 60 (citation_ref citation) (some null) none world run_open

abbrev proposed : World
proposed = (propose_fix env config invocation citation world).1

run_propose : propose_fix env config invocation citation world ≡ (ok issued, proposed)
unfolding ops_guard.Audit.Keys.is_sensitive ops_guard.Audit.Redact.redact ops_guard.Audit.append_on
    ops_guard.Audit.build ops_guard.Audit.guarded ops_guard.Audit.insert_event
    ops_guard.Env.canonicalize_json ops_guard.Env.document_digest ops_guard.Env.loads_json
    ops_guard.ExecutionBinding.resolve_binding ops_guard.Invocation.canonical_bytes
    ops_guard.Invocation.from_frozen_json ops_guard.Json.Read.as_mapping
    ops_guard.Judge.evaluate_risk ops_guard.Judge.judge_state ops_guard.Prelude.find
    ops_guard.Proposals.Open.open_proposal ops_guard.Runbooks.resolve_citation
    ops_guard.Tools.Propose.propose_fix ops_guard.Tools.converted ops_guard.World.new_uuid
    ops_guard.World.now ops_guard.World.transaction ops_guard.World.◌>>=◌
    ops_guard.Invocation.reject_unrepresentable_numbers
run_propose = refl

propose_fix-IsProposed_example : IsProposed env config invocation citation world issued proposed
propose_fix-IsProposed_example =
    propose_fix-IsProposed env config invocation citation world run_propose

abbrev broken : Env
broken = record env { fault = λ n. true }

abbrev refused : World
refused = (propose_fix broken config invocation citation world).1

run_broken :
    propose_fix broken config invocation citation world
    ≡ (err (sqlite_error "storage failure"), refused)
unfolding ops_guard.Env.canonicalize_json ops_guard.Env.document_digest ops_guard.Env.loads_json
    ops_guard.Errors.is_audit_write_failure ops_guard.Errors.is_proposal_error
    ops_guard.ExecutionBinding.resolve_binding ops_guard.Invocation.canonical_bytes
    ops_guard.Judge.evaluate_risk ops_guard.Judge.judge_state ops_guard.Prelude.find
    ops_guard.Proposals.Open.open_proposal ops_guard.Runbooks.resolve_citation
    ops_guard.Tools.Propose.propose_fix ops_guard.Tools.converted ops_guard.Tools.is_write_failure
    ops_guard.Tools.tool_failure ops_guard.World.new_uuid ops_guard.World.now
    ops_guard.World.transaction ops_guard.World.◌>>=◌
    ops_guard.Invocation.reject_unrepresentable_numbers
run_broken = refl

propose_fix-undo_example : Drifts broken world.db refused.db
propose_fix-undo_example = propose_fix-undo broken config invocation citation world run_broken

execute_fix-Runs_example :
    Runs
      (IsAllowed env library (gate (standing ∷ [])) "t-1" citation world)
      world
      (execute_fix env library (gate (standing ∷ [])) injected "t-1" citation world).1
execute_fix-Runs_example =
    execute_fix-Runs env library (gate (standing ∷ [])) injected "t-1" citation world

abbrev hit : SearchResult
hit = record {
  runbook_id = "restart-web";
  revision = "1";
  content_hash = "rev-1";
  locator = "step-1";
  passage_text = "Restart the service.";
  operation_action = "restart";
  operation_target = "web-1";
  preconditions = required;
  verifier = "ann";
  verified_at = 1;
  applicability = "web";
  score = 2;
}

abbrev searched : World
searched = (search_runbook env library "How to restart?" 3 world).1

run_search : search_runbook env library "How to restart?" 3 world ≡ (ok (hit ∷ []), searched)
unfolding ops_guard.Audit.Keys.is_sensitive ops_guard.Audit.Redact.fingerprint
    ops_guard.Audit.Redact.redact ops_guard.Audit.append_on ops_guard.Audit.build
    ops_guard.Audit.guarded ops_guard.Audit.insert_event ops_guard.Env.canonicalize_json
    ops_guard.Prelude.count_if ops_guard.Runbooks.Search.search_library
    ops_guard.Store.next_sequence_on ops_guard.Text.is_blank ops_guard.Text.is_wanted
    ops_guard.Text.terms ops_guard.Tools.Search.search_runbook ops_guard.Tools.converted
    ops_guard.World.new_uuid ops_guard.World.now ops_guard.World.transaction ops_guard.World.◌>>=◌
run_search = refl

search_runbook-IsRecorded_example :
    (search_library library "How to restart?" 3 ≡ ok (hit ∷ []))
    × (before : Db) × Drifts env world.db before
    × IsRecorded env "How to restart?" 3 (hit ∷ []) before searched.db
search_runbook-IsRecorded_example =
    search_runbook-IsRecorded env library "How to restart?" 3 world run_search
