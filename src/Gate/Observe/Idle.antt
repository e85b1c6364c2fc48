-- ===== src/Gate/Observe/Idle.antt =====
-- Observing the preconditions writes nothing.
use ops_guard.Prelude.{ℕ, ◌+◌, String, Option, none, some}
use ops_guard.Json.{Json, Items, Fields, nil, cons}
use ops_guard.Errors.{Result, ok, err, observer_error, observer_timeout}
use ops_guard.Env.{Env}
use ops_guard.World.Within.{Idle-preorder}
use ops_guard.Preconditions.{
  Registry, Observer, ObserverBinding, find_observer, observe_with, observe,
}
use ops_guard.Proposals.{FrozenProposal}
use ops_guard.Gate.Stage.{ExecutionRequest, Gate}
use ops_guard.Gate.Stage.Idle.{IsIdle, idle_rules, IsIdle-raise, IsIdle-pass, IsIdle-bind}
use ops_guard.Gate.Observe.{
  refuse_observation, compare_value, judge_observation, observe_bound, observe_mapped, observe_one,
  observe_from, observe_all,
}

observe_with-Idle :
    (env : Env) (registry : Registry) (id : String) (settings : Fields) (timeout : ℕ)
    (o : Option Observer)
    → IsIdle env (observe_with env registry id settings timeout o)
unfolding observe_with
observe_with-Idle env registry id settings timeout none = IsIdle-raise env _
observe_with-Idle env registry id settings timeout (some o) = search idle_rules

observe-Idle :
    (env : Env) (registry : Registry) (id : String) (settings : Fields) (timeout : ℕ)
    → IsIdle env (observe env registry id settings timeout)
unfolding observe
observe-Idle env registry id settings timeout =
    observe_with-Idle env registry id settings timeout (find_observer registry id)

module _ (env : Env) (gate : Gate) (request : ExecutionRequest) (frozen : FrozenProposal) where
  refuse_observation-Idle :
      (index : ℕ) (name : Json) (observer : Option String) (outcome reason code : String)
      → IsIdle env
          (refuse_observation env gate request frozen index name observer outcome reason code)
  unfolding refuse_observation
  refuse_observation-Idle index name observer outcome reason code = search idle_rules

  compare_value-Idle :
      (index : ℕ) (name expected : Json) (observer value : String)
      → IsIdle env (compare_value env gate request frozen index name expected observer value)
  unfolding compare_value
  compare_value-Idle index name expected observer value = search idle_rules

  judge_observation-Idle :
      (index : ℕ) (name item : Json) (observer : String) (r : Result String)
      → IsIdle env (judge_observation env gate request frozen index name item observer r)
  unfolding judge_observation
  judge_observation-Idle index name item observer (ok value) =
      search (idle_rules, compare_value-Idle)
  judge_observation-Idle index name item observer (err (observer_timeout s)) = search idle_rules
  judge_observation-Idle index name item observer (err (observer_error s)) = search idle_rules
  judge_observation-Idle index name item observer (err _) = record {
    at = λ w. (Idle-preorder env).stay w;
  }

  observe_bound-Idle :
      (deadline index : ℕ) (name item : Json) (binding : ObserverBinding)
      → IsIdle env (observe_bound env gate request frozen deadline index name item binding)
  unfolding observe_bound
  observe_bound-Idle deadline index name item binding =
      search (idle_rules, judge_observation-Idle, observe-Idle)

  observe_mapped-Idle :
      (deadline index : ℕ) (name item : Json) (binding : Option ObserverBinding)
      → IsIdle env (observe_mapped env gate request frozen deadline index name item binding)
  unfolding observe_mapped
  observe_mapped-Idle deadline index name item none = search (idle_rules, refuse_observation-Idle)
  observe_mapped-Idle deadline index name item (some b) =
      observe_bound-Idle deadline index name item b

  pub observe_one-Idle :
      (deadline index : ℕ) (item : Json)
      → IsIdle env (observe_one env gate request frozen deadline index item)
  unfolding observe_one
  observe_one-Idle deadline index item = search (idle_rules, observe_mapped-Idle)

  observe_from-Idle :
      (deadline index : ℕ) (rest : Items)
      → IsIdle env (observe_from env gate request frozen deadline index rest)
  unfolding observe_from
  observe_from-Idle deadline index nil = IsIdle-pass env _
  observe_from-Idle deadline index (cons item rest) =
      IsIdle-bind env _ _ (observe_one-Idle deadline index item) λ seen.
        IsIdle-bind env _ _ (observe_from-Idle deadline (index + 1) rest) λ more. IsIdle-pass env _

  pub observe_all-Idle : IsIdle env (observe_all env gate request frozen)
  unfolding observe_all
  observe_all-Idle = search (idle_rules, observe_from-Idle)
