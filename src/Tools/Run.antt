-- ===== src/Tools/Run.antt =====
-- proposal_tool.py: `execute_fix`, which takes a token and a citation and nothing else.
use ops_guard.Prelude.{String, none, ◌≡◌, refl}
use ops_guard.Errors.{Result, ok, err}
use ops_guard.Env.{Env}
use ops_guard.World.{World, Exec, Dispatch, lift, continue, ◌>>=◌}
use ops_guard.World.Runs.{Runs, nothing, Runs-map}
use ops_guard.Runbooks.{Citation, CitedPassage, Library, resolve_citation}
use ops_guard.Gate.Stage.{Gate, GateOutcome, ExecutionRequest}
use ops_guard.Gate.Dispatch.{Executor}
use ops_guard.Gate.Execute.{execute}
use ops_guard.Gate.Execute.Safety.{IsGuarded, execute-Runs}
use package.ops_guard.Tools.{as_tool_error, is_citation_error}

abbrev pub request_of : String → Citation → ExecutionRequest
request_of token c = record { token = token; citation = c; expected_digest = none }

-- `execute_fix`; the dictionary that it returns holds the fields of the outcome.
unfoldable pub execute_fix : Env → Library → Gate → Executor → String → Citation → Exec GateOutcome
execute_fix env library gate executor token c =
    lift (as_tool_error is_citation_error "invalid_citation" (resolve_citation library c)) >>= λ _.
    execute env gate (request_of token c) executor

-- The citation resolves in the server's library, and the gate guards the run.
pub record IsAllowed (env : Env) (library : Library) (gate : Gate) (token : String) (c : Citation)
    (w : World) (d : Dispatch) : Type 0 where
  pub cited : CitedPassage
  pub found : resolve_citation library c ≡ ok cited
  pub guarded : IsGuarded env gate (request_of token c) w d

module _ (env : Env) (library : Library) (gate : Gate) (executor : Executor) (token : String)
    (c : Citation) (w : World) where
  resolved-Runs :
      (r : Result CitedPassage)
      → resolve_citation library c ≡ r
      → Runs
          (IsAllowed env library gate token c w)
          w
          (continue
            (as_tool_error is_citation_error "invalid_citation" r)
            (λ _. execute env gate (request_of token c) executor)
            w).1
  resolved-Runs (ok cited) h =
      Runs-map (λ d g. record { cited = cited; found = h; guarded = g })
        (execute-Runs env gate (request_of token c) executor w)
  resolved-Runs (err e) h = nothing refl

  -- A call of `execute_fix`, however it ends, runs nothing, or it runs one script: then the citation
  -- resolves in the server's library, and the gate guarded the run for a request with this token and
  -- this citation.
  pub execute_fix-Runs :
      Runs
        (IsAllowed env library gate token c w)
        w
        (execute_fix env library gate executor token c w).1
  unfolding execute_fix ◌>>=◌
  execute_fix-Runs = resolved-Runs (resolve_citation library c) refl
