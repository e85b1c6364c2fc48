-- ===== src/Preconditions.antt =====
-- preconditions.py: the operator policy, and one observation through a registered observer.
pub mod Default
pub mod Policy
use ops_guard.Prelude.{
  ℕ, ◌-◌, String, Bool, ◌&&◌, Option, none, some, List, ◌==◌, ◌⊕◌, ltb, eqb, if◌then◌else◌, find,
}
use ops_guard.Json.{Fields}
use ops_guard.Errors.{Result, ok, err, observer_error, observer_timeout}
use ops_guard.Env.{Env, Response, returned, failed, still_running}
use ops_guard.World.{Exec, raise, lift, ◌>>=◌, tick}
use ops_guard.Authorization.{StandingAuthorization}

pub record ObserverBinding : Type 0 where
  pub runbook_id : String
  pub revision : String
  pub content_hash : String
  pub precondition_index : ℕ
  pub observer_id : String
  pub settings : Fields

pub record OperatorPolicy : Type 0 where
  pub digest : String
  pub standing : List StandingAuthorization
  pub bindings : List ObserverBinding

-- A registered observer; what its adapter does is the environment's `observer`.
pub record Observer : Type 0 where
  pub observer_id : String
  pub validator : Fields → Result (Unit {0})
  pub timeout_of : Fields → ℕ

-- `ObserverRegistry`
pub record Registry : Type 0 where
  pub deadline : ℕ
  pub observers : List Observer

-- The key of an observer binding
pub record ObserverKey : Type 0 where
  pub runbook_id : String
  pub revision : String
  pub content_hash : String
  pub precondition_index : ℕ

abbrev pub has_observer_key : ObserverKey → ObserverBinding → Bool
has_observer_key k b =
    b.runbook_id == k.runbook_id
    && (b.revision == k.revision
        && (b.content_hash == k.content_hash && eqb b.precondition_index k.precondition_index))

-- `policy.bindings.get(key)`
unfoldable pub binding_for : OperatorPolicy → ObserverKey → Option ObserverBinding
binding_for policy k = find (has_observer_key k) policy.bindings

unfoldable pub find_observer : Registry → String → Option Observer
find_observer registry id = find (λ o. o.observer_id == id) registry.observers

-- `ObserverRegistry.timeout_for`
unfoldable pub timeout_for : Registry → String → Fields → Result ℕ
timeout_for registry id settings = elim (find_observer registry id) [
  | none ↦ err (observer_error ("observer " ⊕ id ⊕ " is not registered"))
  | some o ↦ ok (o.timeout_of settings)
]

-- What the worker left, once it has been joined. Times are in microseconds.
abbrev observed : String → ℕ → ℕ → ℕ → Response → Result String
observed id deadline started ended still_running =
    err (observer_timeout ("observer " ⊕ id ⊕ " timed out"))
observed id deadline started ended failed = err (observer_error ("observer " ⊕ id ⊕ " failed"))
observed id deadline started ended (returned none) =
    err (observer_error ("observer " ⊕ id ⊕ " returned a malformed observation"))
observed id deadline started ended (returned (some value)) =
    if value == ""
    then err (observer_error ("observer " ⊕ id ⊕ " returned a malformed observation"))
    else if ltb deadline (ended - started)
    then err (observer_error "total observation deadline exceeded")
    else ok value

-- One run of a registered adapter
unfoldable pub observe_with : Env → Registry → String → Fields → ℕ → Option Observer → Exec String
observe_with env registry id settings timeout none =
    raise (observer_error ("observer " ⊕ id ⊕ " is not registered"))
observe_with env registry id settings timeout (some _) = do
  start ← tick
  run ← tick
  end ← tick
  lift (
      observed id registry.deadline (env.monotonic start) (env.monotonic end)
        (env.observer run id settings timeout))

-- `ObserverRegistry.observe`: the observed value
unfoldable pub observe : Env → Registry → String → Fields → ℕ → Exec String
observe env registry id settings timeout =
    observe_with env registry id settings timeout (find_observer registry id)
