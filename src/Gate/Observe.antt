-- ===== src/Gate/Observe.antt =====
-- gate.py, `execute`: every precondition is observed afresh through the operator's bindings.
pub mod Idle
pub mod Facts
use ops_guard.Prelude.{
  ℕ, suc, ◌+◌, ◌-◌, String, Bool, true, false, ◌&&◌, Option, none, some, List, [], ◌∷◌, ◌++◌, ◌==◌,
  ◌⊕◌, leb, min, if◌then◌else◌,
}
use ops_guard.Json.{
  Json, Items, Fields, null, bool, int, float, str, arr, obj, nil, cons, end, field, nat, lookup,
  text_or_null,
}
use ops_guard.Errors.{
  Error, Result, ok, err, message, observer_error, observer_timeout, key_error, type_error,
}
use ops_guard.Env.{Env}
use ops_guard.World.{World, Exec, lift, tick, stamp}
use ops_guard.Runbooks.{Citation}
use ops_guard.Preconditions.{
  ObserverBinding, ObserverKey, OperatorPolicy, Registry, binding_for, timeout_for, observe,
}
use ops_guard.Proposals.{FrozenProposal}
use ops_guard.Gate.Stage.{
  ExecutionRequest, Gate, Refusal, Stage, pass, refuse, escape, inspect, ◌>>=◌, ◌>>◌, call,
}
use ops_guard.Gate.Binding.{for_proposal}

-- `precondition[key]`
unfoldable pub item_at : String → Json → Result Json
unfolding lookup
item_at key (obj fs) = elim (lookup key fs) [ none ↦ err (key_error key) | some v ↦ ok v ]
item_at key _ = err (type_error "the precondition is not subscriptable by a string")

-- `value == expected`, for an observed string
abbrev pub is_text : String → Json → Bool
is_text value (str s) = value == s
is_text value _ = false

abbrev pub provenance : Gate → Citation → ℕ → Json → String → Option String → String → Fields
provenance gate c index name at observer outcome = field "runbook_id" (str c.runbook_id) (
    field "revision" (str c.revision) (
      field "content_hash" (str c.content_hash) (
        field "precondition_index" (nat index) (
          field "precondition_name" name (
            field "observer_id" (text_or_null observer) (
              field "policy_digest" (str gate.policy.digest)
                (field "observed_at" (str at) (field "outcome" (str outcome) end))))))))

abbrev pub observer_key : Citation → ℕ → ObserverKey
observer_key c index = record {
  runbook_id = c.runbook_id;
  revision = c.revision;
  content_hash = c.content_hash;
  precondition_index = index;
}

module _ (env : Env) (gate : Gate) (request : ExecutionRequest) (frozen : FrozenProposal) where
  -- A refusal that carries the safe provenance of the observation
  abbrev observation_refusal : String → String → Fields → Refusal
  observation_refusal reason code seen =
      let bare = for_proposal frozen reason (some code) in record bare { observation = some seen }

  refuse_observation : ℕ → Json → Option String → String → String → String → Stage Fields
  refuse_observation index name observer outcome reason code = do
    at ← call (stamp env)
    refuse (
        observation_refusal reason code
          (provenance gate request.citation index name at observer outcome))

  -- The observed value is compared with the required one.
  compare_value : ℕ → Json → Json → String → String → Stage Fields
  compare_value index name expected observer value = do
    at ← call (stamp env)
    let matched = is_text value expected
    let seen =
        provenance gate request.citation index name at (some observer)
          (if matched then "matched" else "mismatch")
    if matched
        then pass seen
        else refuse (
            observation_refusal "precondition did not match the required state"
              "precondition-mismatch" seen)

  -- What `observe` returned or raised
  judge_observation : ℕ → Json → Json → String → Result String → Stage Fields
  unfolding compare_value refuse_observation
  judge_observation index name item observer (ok value) = do
    expected ← call (lift (item_at "expected" item))
    compare_value index name expected observer value
  judge_observation index name item observer (err (observer_timeout s)) =
      refuse_observation index name (some observer) "failed"
        ("precondition observation failed: " ⊕ s) "precondition-timeout"
  judge_observation index name item observer (err (observer_error s)) =
      refuse_observation index name (some observer) "failed"
        ("precondition observation failed: " ⊕ s) "precondition-observer-error"
  judge_observation index name item observer (err e) = escape e

  -- The observation, within what is left of the total deadline
  observe_bound : ℕ → ℕ → Json → Json → ObserverBinding → Stage Fields
  unfolding judge_observation
  observe_bound deadline index name item binding = do
    at ← call tick
    let remaining = deadline - env.monotonic at
    if leb deadline (env.monotonic at)
        then refuse_observation index name (some binding.observer_id) "deadline-exceeded"
            "total observation deadline exceeded" "precondition-deadline"
        else (do
          own ← call (lift (timeout_for gate.registry binding.observer_id binding.settings))
          inspect
              (observe env gate.registry binding.observer_id binding.settings (min own remaining))
              (judge_observation index name item binding.observer_id))

  observe_mapped : ℕ → ℕ → Json → Json → Option ObserverBinding → Stage Fields
  unfolding observe_bound
  observe_mapped deadline index name item none =
      refuse_observation index name none "unmapped"
        "precondition has no operator-configured observer for this revision" "precondition-unmapped"
  observe_mapped deadline index name item (some binding) =
      observe_bound deadline index name item binding

  unfoldable pub observe_one : ℕ → ℕ → Json → Stage Fields
  unfolding observe_mapped
  observe_one deadline index item = do
    name ← call (lift (item_at "name" item))
    observe_mapped deadline index name item
        (binding_for gate.policy (observer_key request.citation index))

  -- The loop over `enumerate(frozen.invocation.preconditions)`
  unfoldable pub observe_from : ℕ → ℕ → Items → Stage (List Fields)
  observe_from deadline index nil = pass []
  observe_from deadline index (cons item rest) = observe_one deadline index item >>= λ seen.
      observe_from deadline (index + 1) rest >>= λ more. pass (seen ∷ more)

  unfoldable pub observe_all : Stage (List Fields)
  observe_all = do
    start ← call tick
    observe_from (env.monotonic start + gate.registry.deadline) 0 frozen.invocation.preconditions
