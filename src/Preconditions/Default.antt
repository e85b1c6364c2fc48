-- ===== src/Preconditions/Default.antt =====
-- preconditions.py: the registry of observers that the server fixes.
use ops_guard.Prelude.{
  ℕ, ◌*◌, String, Bool, true, false, ◌&&◌, Option, none, some, [], ◌∷◌, ◌⊕◌, leb, if◌then◌else◌,
}
use ops_guard.Json.{Fields, lookup, keys_are}
use ops_guard.Json.Read.{as_nat}
use ops_guard.Errors.{Result, ok, err, ◌>>◌, check, policy_error}
use package.ops_guard.Preconditions.{Observer, Registry, find_observer}

-- One second and the total deadline, in microseconds
abbrev pub second : ℕ
second = 1_000_000

abbrev has_observer : Registry → String → Bool
has_observer registry id = elim (find_observer registry id) [ none ↦ false | some _ ↦ true ]

-- `ObserverRegistry.register`
unfoldable pub register : Registry → Observer → Result Registry
register registry o =
    if has_observer registry o.observer_id
    then err (policy_error ("observer " ⊕ o.observer_id ⊕ " is already registered"))
    else ok (record registry { observers = o ∷ registry.observers })

-- `ObserverRegistry.validate_settings`
unfoldable pub validate_settings : Registry → String → Fields → Result (Unit {0})
validate_settings registry id settings = elim (find_observer registry id) [
  | none ↦
      err (
        policy_error ("unknown observer id " ⊕ id ⊕ ": policy may only select registered adapters"))
  | some o ↦ o.validator settings
]

abbrev pub in_seconds : Option ℕ → Bool
in_seconds none = false
in_seconds (some n) = leb 1 n && leb n 30

-- `_validate_timeout_seconds`
unfoldable pub validate_timeout_seconds : Fields → Result (Unit {0})
validate_timeout_seconds settings = do
  check (keys_are ("timeout_seconds" ∷ []) settings)
      (policy_error "docker_engine_running settings must be exactly {timeout_seconds}")
  check (in_seconds (as_nat (lookup "timeout_seconds" settings)))
      (policy_error "timeout_seconds must be an integer from 1 through 30")
  ok tt

abbrev pub seconds_of : Option ℕ → ℕ
seconds_of none = 0
seconds_of (some n) = n * second

-- `lambda settings: float(settings["timeout_seconds"])`, of validated settings
unfoldable pub docker_timeout : Fields → ℕ
docker_timeout settings = seconds_of (as_nat (lookup "timeout_seconds" settings))

-- `default_registry`
unfoldable pub default_registry : Result Registry
unfolding register validate_timeout_seconds docker_timeout
default_registry =
    register (record { deadline = 30 * second; observers = [] })
      (record {
        observer_id = "docker_engine_running";
        validator = validate_timeout_seconds;
        timeout_of = docker_timeout;
      })
