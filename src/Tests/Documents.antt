-- ===== src/Tests/Documents.antt =====
-- The documents that the parsers read: a runbook, a catalog, and an operator policy.
use ops_guard.Prelude.{pos, String, true, some, [], ◌∷◌}
use ops_guard.Json.{Json, Fields, bool, int, str, arr, obj, nil, cons, end, field}
use ops_guard.Env.{Env}
use ops_guard.Runbooks.{RunbookRevision, Citation, CitedPassage}
use ops_guard.ExecutionBinding.{Catalog, CatalogKey}
use ops_guard.Authorization.{StandingAuthorization}
use ops_guard.Preconditions.{ObserverBinding, OperatorPolicy, Registry}
use ops_guard.Preconditions.Default.{validate_timeout_seconds, docker_timeout}
use ops_guard.Tests.Fixture.{env, required}

-- A digest, the same for every text
abbrev pub digest : String
digest = "0123456789abcdef0123456789abcdef0123456789abcdef0123456789abcdef"

abbrev pub force : Fields
force = field "force" (bool true) end

abbrev pub reader : Env
reader = record env {
  sha256 = λ text. digest;
  loads = λ text. some (obj force);
  isabs = λ path. true;
}

abbrev pub precondition : Json
precondition = obj (field "name" (str "service") (field "expected" (str "up") end))

abbrev operation : Json
operation = obj (field "action" (str "restart") (field "target" (str "web-1") end))

abbrev passage : Json
passage = obj (field "locator" (str "step-1") (field "text" (str "Restart the service.") end))

abbrev verification : Json
verification = obj (
    field "verifier" (str "ann")
      (field "verified_at" (str "2026-01-01T00:00:00Z") (field "applicability" (str "web") end)))

abbrev body : Fields
body = field "runbook_id" (str "restart-web") (
    field "revision" (str "1") (
      field "operation" operation (
        field "preconditions" (arr (cons precondition nil))
          (field "passages" (arr (cons passage nil)) (field "verification" verification end)))))

abbrev pub runbook : Json
runbook = obj (field "content_hash" (str digest) body)

abbrev pub revision : RunbookRevision
revision = record {
  runbook_id = "restart-web";
  revision = "1";
  operation_action = "restart";
  operation_target = "web-1";
  preconditions = required;
  passages = record { locator = "step-1"; text = "Restart the service." } ∷ [];
  verification = record { verifier = "ann"; verified_at = 7; applicability = "web" };
  content_hash = digest;
  body = obj body;
}

abbrev pub citation : Citation
citation = record {
  runbook_id = "restart-web";
  revision = "1";
  content_hash = digest;
  locator = "step-1";
}

abbrev pub cited : CitedPassage
cited = record {
  citation = citation;
  passage = record { locator = "step-1"; text = "Restart the service." };
  operation_action = "restart";
  operation_target = "web-1";
  preconditions = required;
  verifier = "ann";
}

abbrev profile_document : Json
profile_document = obj (
    field "profile_id" (str "python") (
      field "executable" (str "/usr/bin/python3") (
        field "executable_sha256" (str digest) (
          field "argv" (arr (cons (str "/usr/bin/python3") (cons (str "-I") nil))) (
            field "working_directory" (str "/srv") (
              field "env_allowlist" (arr nil) (
                field "timeout_seconds" (int (pos 60))
                  (field "output_limit" (int (pos 4096)) end))))))))

abbrev entry_document : Json
entry_document = obj (
    field "runbook_id" (str "restart-web") (
      field "revision" (str "1") (
        field "content_hash" (str digest) (
          field "action" (str "restart") (
            field "target" (str "web-1") (
              field "script_id" (str "s-1") (
                field "script_path" (str "scripts/restart.py")
                  (field "script_sha256" (str digest) end))))))))

abbrev pub catalog_document : Json
catalog_document = obj (
    field "schema_version" (str "ops-guard-execution-catalog-v1") (
      field "runner_profile" profile_document
        (field "entries" (arr (cons entry_document nil)) end)))

abbrev pub catalog : Catalog
catalog = record {
  entries =
      record {
        runbook_id = "restart-web";
        revision = "1";
        content_hash = digest;
        action = "restart";
        target = "web-1";
        script_id = "s-1";
        script_path = "scripts/restart.py";
        script_sha256 = digest;
      }
      ∷ [];
  profiles =
      record {
        profile_id = "python";
        executable = "/usr/bin/python3";
        executable_sha256 = digest;
        argv = "/usr/bin/python3" ∷ "-I" ∷ [];
        working_directory = "/srv";
        env_allowlist = [];
        timeout_seconds = 60;
        output_limit = 4096;
      }
      ∷ [];
}

abbrev pub key : CatalogKey
key = record {
  runbook_id = "restart-web";
  revision = "1";
  content_hash = digest;
  action = "restart";
  target = "web-1";
}

abbrev pub authorization : Json
authorization = obj (
    field "authorization_id" (str "auth-1") (
      field "script_path" (str "scripts/restart.py") (
        field "script_sha256" (str digest) (
          field "action" (str "restart") (
            field "target" (str "web-1") (
              field "arguments" (obj force) (
                field "preconditions" (arr (cons precondition nil)) (
                  field "runbook_revision_hash" (str digest)
                    (field "runner_profile_digest" (str digest) end)))))))))

abbrev pub permitted : StandingAuthorization
permitted = record {
  authorization_id = "auth-1";
  script_path = "scripts/restart.py";
  script_sha256 = digest;
  action = "restart";
  target = "web-1";
  arguments = force;
  preconditions = required;
  runbook_revision_hash = digest;
  runner_profile_digest = digest;
}

abbrev pub settings : Fields
settings = field "timeout_seconds" (int (pos 5)) end

abbrev binding_document : Json
binding_document = obj (
    field "runbook_id" (str "restart-web") (
      field "revision" (str "1") (
        field "content_hash" (str digest) (
          field "precondition_index" (int (pos 0)) (
            field "observer_id" (str "docker_engine_running")
              (field "settings" (obj settings) end))))))

abbrev pub policy_document : Json
policy_document = obj (
    field "schema_version" (str "ops-guard-policy-v1") (
      field "standing_authorizations" (arr (cons authorization nil))
        (field "observer_bindings" (arr (cons binding_document nil)) end)))

abbrev pub binding : ObserverBinding
binding = record {
  runbook_id = "restart-web";
  revision = "1";
  content_hash = digest;
  precondition_index = 0;
  observer_id = "docker_engine_running";
  settings = settings;
}

abbrev pub policy : OperatorPolicy
policy = record { digest = digest; standing = permitted ∷ []; bindings = binding ∷ [] }

abbrev pub registry : Registry
registry = record {
  deadline = 30_000_000;
  observers =
      record {
        observer_id = "docker_engine_running";
        validator = validate_timeout_seconds;
        timeout_of = docker_timeout;
      }
      ∷ [];
}
