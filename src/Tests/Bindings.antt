-- ===== src/Tests/Bindings.antt =====
-- Freezing, approving and binding at the deployment of Tests/Fixture.
use ops_guard.Prelude.{ℕ, String, Bool, true, false, pos, none, some, [], ◌∷◌, ◌≡◌, ◌↔◌, refl}
use ops_guard.Errors.{ok}
use ops_guard.Env.{exited}
use ops_guard.Store.{success, ApprovalRow, recorded}
use ops_guard.World.{World}
use ops_guard.World.Atomic.{begun}
use ops_guard.Invocation.{to_json}
use ops_guard.Approvals.{record_approval_by_proposal_id}
use ops_guard.Approvals.Recorded.{IsRecording, record_approval_by_proposal_id-IsRecording}
use ops_guard.ExecutionBinding.{
  Catalog, CatalogEntry, CatalogKey, RunnerProfile, Template, resolve_binding, entry_document,
  profile_document,
}
use ops_guard.ExecutionBinding.Resolution.{IsResolved, resolve_binding-IsResolved}
use ops_guard.ExecutionBinding.Runner.{classify}
use ops_guard.ExecutionBinding.Runner.Classified.{IsClean, classify-exact}
use ops_guard.Tests.Fixture.{env, host, world, hash, print, approval}

-- The deployment before its approval
abbrev unapproved : World
unapproved = record world {
  db = record {
    proposals = world.db.proposals;
    bindings = world.db.bindings;
    approvals = [];
    events = [];
  };
}

abbrev approved : World
approved = (record_approval_by_proposal_id env "op" "p-1" "op" unapproved).1

abbrev new_approval_row : ApprovalRow
new_approval_row = record approval { approval_id = "iiiiu"; created_at = 100 }

run_approve :
    record_approval_by_proposal_id env "op" "p-1" "op" unapproved ≡ (ok new_approval_row, approved)
unfolding ops_guard.Approvals.record_approval_by_proposal_id ops_guard.Env.canonicalize_json
    ops_guard.Env.loads_json ops_guard.Invocation.canonical_bytes
    ops_guard.Invocation.from_frozen_json ops_guard.Invocation.parse_frozen_invocation
    ops_guard.Invocation.to_json ops_guard.Prelude.find ops_guard.Proposals.eligible
    ops_guard.Proposals.fetch_binding_on ops_guard.Proposals.fetch_by_id_on
    ops_guard.Proposals.row_to_proposal ops_guard.Store.binding_by_id ops_guard.Store.proposal_by_id
    ops_guard.World.new_uuid ops_guard.World.now ops_guard.World.transaction ops_guard.World.◌>>=◌
    ops_guard.Invocation.reject_unrepresentable_numbers
run_approve = refl

record_approval_by_proposal_id-IsRecording_example :
    (◌≡◌ {A = String} "op" "op")
    × IsRecording env "op" "p-1" (begun env unapproved) approved new_approval_row
record_approval_by_proposal_id-IsRecording_example =
    record_approval_by_proposal_id-IsRecording env "op" "p-1" "op" unapproved run_approve

abbrev listed : CatalogEntry
listed = record {
  runbook_id = "restart-web";
  revision = "1";
  content_hash = "rev-1";
  action = "restart";
  target = "web-1";
  script_id = "s-1";
  script_path = "scripts/restart.py";
  script_sha256 = hash "systemctl restart web";
}

abbrev python : RunnerProfile
python = record {
  profile_id = "python";
  executable = "/usr/bin/python3";
  executable_sha256 = hash "python";
  argv = [];
  working_directory = "/srv";
  env_allowlist = [];
  timeout_seconds = 60;
  output_limit = 1000;
}

abbrev catalog : Catalog
catalog = record { entries = listed ∷ []; profiles = python ∷ [] }

abbrev key : CatalogKey
key = record {
  runbook_id = "restart-web";
  revision = "1";
  content_hash = "rev-1";
  action = "restart";
  target = "web-1";
}

abbrev resolved : Template
resolved = record {
  runbook_id = "restart-web";
  runbook_revision = "1";
  runbook_content_hash = "rev-1";
  script_id = "s-1";
  script_path = "scripts/restart.py";
  script_sha256 = hash "systemctl restart web";
  catalog_entry_digest = hash (print (entry_document listed));
  runner_profile_id = "python";
  runner_profile_digest = hash (print (profile_document python));
}

run_resolve : resolve_binding env catalog key ≡ ok resolved
unfolding ops_guard.Env.document_digest ops_guard.ExecutionBinding.resolve_binding
run_resolve = refl

resolve_binding-IsResolved_example : IsResolved env catalog key resolved
resolve_binding-IsResolved_example = resolve_binding-IsResolved env catalog key resolved run_resolve

classify-exact_example :
    ((classify host (exited (pos 0))).outcome ≡ success) ↔ IsClean host (exited (pos 0))
classify-exact_example = classify-exact host (exited (pos 0))
