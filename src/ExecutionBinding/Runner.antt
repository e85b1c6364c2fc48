-- ===== src/ExecutionBinding/Runner.antt =====
-- execution_binding.py: `run_staged`, which runs only a verified copy of the bound script.
pub mod Verified
pub mod Classified
use ops_guard.Prelude.{
  ℕ, zero, suc, ℤ, pos, negsuc, String, Bool, true, false, ◌||◌, Option, none, some, ◌==◌,
  if◌then◌else◌,
}
use ops_guard.Errors.{Error, Result, ok, err, os_error}
use ops_guard.Env.{Env, Host, Wait, exited, expired, wait_error, canonicalize_json}
use ops_guard.Invocation.{Invocation, to_json}
use ops_guard.Store.{Outcome, success, failure, unknown}
use ops_guard.World.{World, Exec, Dispatch, pure, raise, lift, ◌>>=◌, ◌>>◌, tick, run_script}
use package.ops_guard.ExecutionBinding.{RunnerProfile}

pub record RunnerResult : Type 0 where
  pub outcome : Outcome
  pub failure_code : Option String

abbrev pub ended : Outcome → Option String → RunnerResult
ended o code = record { outcome = o; failure_code = code }

-- The classification of a child that was waited for
unfoldable pub classify : Host → Wait → RunnerResult
classify h expired = ended unknown (some "executor-timeout")
classify h wait_error = ended unknown (some "executor-error")
classify h (exited code) =
    if h.still_open
    then ended unknown
        (if h.stdout_overflow || h.stderr_overflow then some "output-limit" else none)
    else if h.stdout_overflow || h.stderr_overflow
    then ended failure (some "output-limit")
    else elim code [
      | pos (suc _) ↦ ended failure (some "non-zero-exit")
      | pos zero ↦ ended success none
      | negsuc _ ↦ ended failure (some "non-zero-exit")
    ]

-- From `Popen` on: the child runs the staged file.
launch : Host → Dispatch → Exec RunnerResult
unfolding classify
launch h d = if h.spawn_fails then pure (ended unknown (some "spawn-failure")) else (do
  run_script d
  pure (if h.arming_fails then ended unknown (some "spawn-failure") else classify h h.wait))

module _ (env : Env) where
  -- Staging, and the re-verification of the staged copy
  stage : Host → String → String → Invocation → Exec RunnerResult
  unfolding launch
  stage h script_path script_sha256 invocation =
      if h.staging_fails
      then raise (os_error "staging failed")
      else if env.sha256 h.staged == script_sha256
      then (do
        _ ← lift (canonicalize_json env (to_json invocation))
        launch h (record {
          script_path = script_path;
          script_bytes = h.staged;
          invocation = invocation;
        }))
      else pure (ended failure (some "staged-hash-mismatch"))

  check_executable :
      Host → RunnerProfile → Option String → String → String → Invocation → Exec RunnerResult
  unfolding stage
  check_executable h profile none script_path script_sha256 invocation =
      pure (ended failure (some "runner-executable-unreadable"))
  check_executable h profile (some bytes) script_path script_sha256 invocation =
      if env.sha256 bytes == profile.executable_sha256
      then stage h script_path script_sha256 invocation
      else pure (ended failure (some "runner-executable-mismatch"))

  -- `run_staged`
  unfoldable pub run_staged :
      RunnerProfile → String → String → String → Invocation → Exec RunnerResult
  unfolding check_executable
  run_staged profile script_path script_bytes script_sha256 invocation =
      if env.sha256 script_bytes == script_sha256
      then (do
        at ← tick
        let h = env.host at
        check_executable h profile h.executable script_path script_sha256 invocation)
      else pure (ended failure (some "staged-hash-mismatch"))
