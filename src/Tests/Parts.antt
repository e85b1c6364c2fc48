-- ===== src/Tests/Parts.antt =====
-- The other parts at the deployment of Tests/Fixture.
use ops_guard.Prelude.{true, some, [], ◌≡◌, ◌↔◌, refl}
use ops_guard.Json.{Json, obj, str, field, end}
use ops_guard.Errors.{ok}
use ops_guard.World.Within.{Within}
use ops_guard.World.Runs.{Runs}
use ops_guard.Audit.Redact.{redact, take_text}
use ops_guard.Audit.Redact.Safety.{IsRedacted, redact-IsRedacted}
use ops_guard.Audit.Keys.{default_sensitive_keys}
use ops_guard.Authorization.{match}
use ops_guard.Authorization.Exact.{IsExact, match-IsExact}
use ops_guard.Runbooks.{CitedPassage, resolve_citation}
use ops_guard.Runbooks.Resolve.{IsCited, resolve_citation-exact}
use ops_guard.ExecutionBinding.{RunnerProfile}
use ops_guard.ExecutionBinding.Runner.{run_staged}
use ops_guard.ExecutionBinding.Runner.Verified.{IsVerified, run_staged-Runs}
use ops_guard.Tests.Fixture.{env, invocation, standing, library, citation, required, hash}

match-IsExact_example :
    ((match env standing invocation
        (record { path = "scripts/restart.py"; sha256 = hash "systemctl restart web" })
        (some "profile")).matched
      ≡ true)
    ↔ IsExact env standing invocation
        (record { path = "scripts/restart.py"; sha256 = hash "systemctl restart web" })
        (some "profile")
match-IsExact_example =
    match-IsExact env standing invocation
      (record { path = "scripts/restart.py"; sha256 = hash "systemctl restart web" })
      (some "profile")

abbrev secret : Json
secret = obj (field "api_token" (str "hunter2") (field "host" (str "web-1") end))

abbrev clean : Json
clean = obj (
    field "api_token"
      (obj (
        field "__redacted__" (str "sensitive-key")
          (field "fingerprint" (str (take_text 16 (env.hmac_sha256 "pepper" "'hunter2'"))) end)))
      (field "host" (str "web-1") end))

run_redact : redact env default_sensitive_keys (some "pepper") secret ≡ ok clean
unfolding ops_guard.Audit.Keys.is_sensitive ops_guard.Audit.Redact.redact
    ops_guard.Audit.Redact.replacement ops_guard.Audit.Redact.fingerprint
    ops_guard.Env.canonicalize_json
run_redact = refl

redact-IsRedacted_example : IsRedacted env default_sensitive_keys (some "pepper") secret clean
redact-IsRedacted_example =
    redact-IsRedacted env default_sensitive_keys (some "pepper") secret clean run_redact

abbrev cited : CitedPassage
cited = record {
  citation = citation;
  passage = record { locator = "step-1"; text = "Restart the service." };
  operation_action = "restart";
  operation_target = "web-1";
  preconditions = required;
  verifier = "ann";
}

resolve_citation-exact_example :
    (resolve_citation library citation ≡ ok cited) ↔ IsCited library citation cited
resolve_citation-exact_example = resolve_citation-exact library citation cited

abbrev profile : RunnerProfile
profile = record {
  profile_id = "python";
  executable = "/usr/bin/python3";
  executable_sha256 = hash "python";
  argv = [];
  working_directory = "/srv";
  env_allowlist = [];
  timeout_seconds = 60;
  output_limit = 1000;
}

run_staged-Runs_example :
    Within (Runs (IsVerified env "scripts/restart.py" (hash "systemctl restart web") invocation)) (
      run_staged env profile "scripts/restart.py" "systemctl restart web"
        (hash "systemctl restart web")
        invocation)
run_staged-Runs_example =
    run_staged-Runs env "scripts/restart.py" (hash "systemctl restart web") invocation profile
      "systemctl restart web"
