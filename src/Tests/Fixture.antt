-- ===== src/Tests/Fixture.antt =====
-- A deployment with one runbook, one frozen proposal and one standing authorization.
use ops_guard.Prelude.{
  ℕ, zero, suc, pos, String, true, false, Option, none, some, List, [], ◌∷◌, ◌⊕◌,
}
use ops_guard.Json.{
  Json, Items, Fields, null, bool, int, float, str, arr, obj, nil, cons, end, field,
}
use ops_guard.Errors.{ok}
use ops_guard.Env.{Env, aware, Host, exited, returned, reported, free}
use ops_guard.Invocation.{Invocation, to_json}
use ops_guard.Store.{ProposalRow, active, ApprovalRow, recorded, BindingRow, ExecutionBinding}
use ops_guard.World.{World}
use ops_guard.Proposals.{FrozenProposal}
use ops_guard.Runbooks.{Citation, Library}
use ops_guard.Authorization.{StandingAuthorization, Precondition}
use ops_guard.Preconditions.{OperatorPolicy}
use ops_guard.ExecutionBinding.{to_document}
use ops_guard.Gate.Stage.{Gate, ExecutionRequest}

abbrev mutual
  pub print : Json → String
  print null = "null"
  print (bool true) = "true"
  print (bool false) = "false"
  print (int n) = "int"
  print (float x) = "float"
  print (str s) = "'" ⊕ s ⊕ "'"
  print (arr xs) = "[" ⊕ print_items xs ⊕ "]"
  print (obj fs) = "{" ⊕ print_fields fs ⊕ "}"

  pub print_items : Items → String
  print_items nil = ""
  print_items (cons x xs) = print x ⊕ "," ⊕ print_items xs

  pub print_fields : Fields → String
  print_fields end = ""
  print_fields (field k v fs) = k ⊕ ":" ⊕ print v ⊕ "," ⊕ print_fields fs

abbrev pub hash : String → String
hash s = "sha256 " ⊕ s

abbrev pub tally : ℕ → String
tally zero = "u"
tally (suc n) = "i" ⊕ tally n

abbrev pub precondition : Json
precondition = obj (field "name" (str "service") (field "expected" (str "up") end))

abbrev pub invocation : Invocation
invocation = record {
  action = "restart";
  target = "web-1";
  arguments = field "force" (bool true) end;
  preconditions = cons precondition nil;
  runbook_revision_hash = "rev-1";
}

abbrev pub host : Host
host = record {
  executable = some "python";
  staging_fails = false;
  staged = "systemctl restart web";
  spawn_fails = false;
  arming_fails = false;
  wait = exited (pos 0);
  still_open = false;
  stdout_overflow = false;
  stderr_overflow = false;
}

abbrev pub env : Env
env = record {
  canonicalize = λ j. some (print j);
  loads = λ s. some (to_json invocation);
  sha256 = hash;
  hmac_sha256 = λ key s. key ⊕ s;
  format_timestamp = λ t. "2026-01-01T00:00:00Z";
  fromisoformat = λ text. some (aware 7);
  isabs = λ path. false;
  token_key = "k/";
  fingerprint_key = "f/";
  moment = λ n. aware 100;
  monotonic = λ n. 0;
  uuid = tally;
  token_urlsafe = tally;
  others = λ n db. db;
  host = λ n. host;
  observer = λ n id settings timeout. returned (some "up");
  executor = λ n. reported "success";
  lock = λ n owner. free;
  script_source = λ n path. some "systemctl restart web";
  fault = λ n. false;
}

abbrev pub document : ExecutionBinding
document = record {
  proposal_id = "p-1";
  invocation_digest = hash (print (to_json invocation));
  runbook_id = "restart-web";
  runbook_revision = "1";
  runbook_content_hash = "rev-1";
  script_id = "s-1";
  script_path = "scripts/restart.py";
  script_sha256 = hash "systemctl restart web";
  catalog_entry_digest = "entry";
  runner_profile_id = "python";
  runner_profile_digest = "profile";
}

abbrev pub binding : BindingRow
binding = record {
  proposal_id = "p-1";
  binding_digest = hash (print (to_document document));
  document = document;
}

abbrev pub proposal : ProposalRow
proposal = record {
  proposal_id = "p-1";
  invocation_bytes = "frozen";
  invocation_digest = hash (print (to_json invocation));
  token_digest = "k/t-1";
  created_at = 50;
  expires_at = 200;
  state = active;
  consumed_at = none;
}

abbrev pub approval : ApprovalRow
approval = record {
  approval_id = "a-1";
  token_digest = "k/t-1";
  proposal_id = "p-1";
  operator_identity = "op";
  invocation_digest = hash (print (to_json invocation));
  runbook_revision_hash = "rev-1";
  expires_at = 200;
  created_at = 60;
  state = recorded;
  used_at = none;
  execution_binding_digest = some (hash (print (to_document document)));
}

abbrev pub world : World
world = record {
  db = record {
    proposals = proposal ∷ [];
    bindings = binding ∷ [];
    approvals = approval ∷ [];
    events = [];
  };
  ticks = 0;
  began = none;
  ran = [];
}

abbrev pub citation : Citation
citation = record {
  runbook_id = "restart-web";
  revision = "1";
  content_hash = "rev-1";
  locator = "step-1";
}

abbrev pub required : List Precondition
required = record { name = "service"; expected = "up" } ∷ []

abbrev pub library : Library
library =
    record {
      runbook_id = "restart-web";
      revision = "1";
      operation_action = "restart";
      operation_target = "web-1";
      preconditions = required;
      passages = record { locator = "step-1"; text = "Restart the service." } ∷ [];
      verification = record { verifier = "ann"; verified_at = 1; applicability = "web" };
      content_hash = "rev-1";
      body = null;
    }
    ∷ []

abbrev pub standing : StandingAuthorization
standing = record {
  authorization_id = "auth-1";
  script_path = "scripts/restart.py";
  script_sha256 = hash "systemctl restart web";
  action = "restart";
  target = "web-1";
  arguments = field "force" (bool true) end;
  preconditions = required;
  runbook_revision_hash = "rev-1";
  runner_profile_digest = "profile";
}

abbrev pub policy : List StandingAuthorization → OperatorPolicy
policy permitted = record {
  digest = "policy";
  standing = permitted;
  bindings =
      record {
        runbook_id = "restart-web";
        revision = "1";
        content_hash = "rev-1";
        precondition_index = 0;
        observer_id = "http";
        settings = end;
      }
      ∷ [];
}

abbrev pub gate : List StandingAuthorization → Gate
gate permitted = record {
  runbooks = library;
  registry = record {
    deadline = 10;
    observers =
        record { observer_id = "http"; validator = λ settings. ok tt; timeout_of = λ settings. 5 }
        ∷ [];
  };
  policy = policy permitted;
  operator_identity = "op";
  configured_operator = "op";
  catalog = none;
  owner_id = "owner";
}

abbrev pub request : ExecutionRequest
request = record { token = "t-1"; citation = citation; expected_digest = none }

-- The proposal, by the time of its consumption
abbrev pub frozen : Option ℕ → FrozenProposal
frozen consumed_at = record {
  proposal_id = "p-1";
  invocation = invocation;
  invocation_digest = hash (print (to_json invocation));
  token_digest = "k/t-1";
  created_at = 50;
  expires_at = 200;
  consumed_at = consumed_at;
}
