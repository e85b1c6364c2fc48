-- ===== src/Gate/Checks.antt =====
-- gate.py, `execute`: the checks before the dispatch, in order. They write nothing.
pub mod Facts
use ops_guard.Prelude.{some}
use ops_guard.Env.{Env}
use ops_guard.Authorization.{ScriptIdentity}
use ops_guard.Gate.Stage.{ExecutionRequest, Gate, Stage, pass, ◌>>=◌, ◌>>◌}
use ops_guard.Gate.Binding.{
  resolve_evidence, resolve_token, resolve_binding_row, resolve_script, check_catalog,
  match_evidence,
}
use ops_guard.Gate.Observe.{observe_all}
use ops_guard.Gate.Authorize.{authorize}
use ops_guard.Gate.Dispatch.{Cleared}

unfoldable pub checks : Env → Gate → ExecutionRequest → Stage Cleared
checks env gate request = do
  evidence ← resolve_evidence gate request
  frozen ← resolve_token env request
  row ← resolve_binding_row env frozen
  bytes ← resolve_script env frozen row.document
  check_catalog env gate.catalog frozen row.document
  match_evidence env request frozen evidence
  seen ← observe_all env gate request frozen
  path ←
      authorize env gate request frozen
        (record { path = row.document.script_path; sha256 = env.sha256 bytes })
        row.document.runner_profile_digest
  pass (record {
    frozen = frozen;
    binding = row;
    script_bytes = bytes;
    path = path;
    observations = seen;
  })
