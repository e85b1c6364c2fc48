-- ===== src/ExecutionBinding/Runner/Verified.antt =====
-- `run_staged` executes a verified copy, and classifies every ending.
use ops_guard.Prelude.{String, Option, none, some, ◌==◌, ◌≡◌, refl, eq_iff}
use ops_guard.Env.{Env, Host}
use ops_guard.Invocation.{Invocation}
use ops_guard.World.{World, Dispatch, run_script, tick}
use ops_guard.World.Within.{Within}
use ops_guard.World.Quiet.{IsQuiet-pure, IsQuiet-lift, IsQuiet-raise, IsQuiet-tick}
use ops_guard.World.Runs.{Runs, Runs-none, Runs-script, Runs-later, Runs-first, Runs-if}
use ops_guard.ExecutionBinding.{RunnerProfile}
use ops_guard.ExecutionBinding.Runner.{launch, stage, check_executable, run_staged}

-- The dispatch is of bytes with this digest, for this path and invocation.
pub record IsVerified (env : Env) (script_path script_sha256 : String) (invocation : Invocation)
    (d : Dispatch) : Type 0 where
  pub path : d.script_path ≡ script_path
  pub bytes : env.sha256 d.script_bytes ≡ script_sha256
  pub operation : d.invocation ≡ invocation

module _ (env : Env) (path sha256 : String) (invocation : Invocation) where
  abbrev RunsVerified : {X : Type 0} → (World → X × World) → Type 0
  RunsVerified m = Within (Runs (IsVerified env path sha256 invocation)) m

  launch-Runs :
      (h : Host) (d : Dispatch)
      → IsVerified env path sha256 invocation d
      → RunsVerified (launch h d)
  unfolding launch
  launch-Runs h d v =
      Runs-if h.spawn_fails _ _ (λ _. Runs-none _ (IsQuiet-pure _))
        (Runs-first (run_script d) _ (Runs-script d v) (λ _. IsQuiet-pure _))

  stage-Runs : (h : Host) → RunsVerified (stage env h path sha256 invocation)
  unfolding stage
  stage-Runs h =
      Runs-if h.staging_fails _ _ (λ _. Runs-none _ (IsQuiet-raise _))
        (Runs-if (env.sha256 h.staged == sha256) _ _
          (λ same. Runs-later _ _ (IsQuiet-lift _) λ _.
            launch-Runs h _ (record { path = refl; bytes = (eq_iff _ _).0 same; operation = refl }))
          (Runs-none _ (IsQuiet-pure _)))

  check_executable-Runs :
      (h : Host) (profile : RunnerProfile) (bytes : Option String)
      → RunsVerified (check_executable env h profile bytes path sha256 invocation)
  unfolding check_executable
  check_executable-Runs h profile none = Runs-none _ (IsQuiet-pure _)
  check_executable-Runs h profile (some bytes) =
      Runs-if _ _ _ (λ _. stage-Runs h) (Runs-none _ (IsQuiet-pure _))

  -- A staged run starts at most one process, which runs bytes with the given digest, for the given
  -- path and invocation.
  pub run_staged-Runs :
      (profile : RunnerProfile) (bytes : String)
      → RunsVerified (run_staged env profile path bytes sha256 invocation)
  unfolding run_staged
  run_staged-Runs profile bytes =
      Runs-if _ _ _
        (λ _.
          Runs-later tick _ IsQuiet-tick
            λ at. check_executable-Runs (env.host at) profile (env.host at).executable)
        (Runs-none _ (IsQuiet-pure _))
