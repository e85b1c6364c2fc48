-- ===== src/Preconditions/Policy/Timeout.antt =====
-- preconditions.py: the timeouts of the observations under the default registry.
use mathlib.Core.List.{Memᴰ}
use ops_guard.Prelude.{
  ℕ, ◌*◌, ◌≤◌, String, [], ◌∷◌, ◌==◌, ◌≡◌, refl, sym, ◌∙◌, subst, arith, inl, inr, Bool-cases,
  Option-cases, find,
}
use ops_guard.Json.{Json, Fields, lookup, keys_are}
use ops_guard.Json.Read.{as_nat}
use ops_guard.Errors.{ok, check-ok, ok-injective, err-ne-ok}
use ops_guard.Env.{Env}
use package.ops_guard.Preconditions.{
  ObserverBinding, OperatorPolicy, Registry, find_observer, timeout_for,
}
use package.ops_guard.Preconditions.Default.{
  second, in_seconds, register, validate_settings, validate_timeout_seconds, docker_timeout,
  default_registry,
}
use package.ops_guard.Preconditions.Policy.{load_policy}
use package.ops_guard.Preconditions.Policy.Loaded.{load_policy-IsPolicy}

abbrev fixed : Registry
fixed = record {
  deadline = 30 * second;
  observers =
      record {
        observer_id = "docker_engine_running";
        validator = validate_timeout_seconds;
        timeout_of = docker_timeout;
      }
      ∷ [];
}

default-fixed : default_registry ≡ ok fixed
unfolding default_registry register find_observer find
default-fixed = refl

-- The default registry has one observer.
only_observer :
    (id : String) (settings : Fields)
    → validate_settings fixed id settings ≡ ok tt
    → (timeout_for fixed id settings ≡ ok (docker_timeout settings))
      × (validate_timeout_seconds settings ≡ ok tt)
unfolding validate_settings timeout_for find_observer find
only_observer id settings v = elim (Bool-cases ("docker_engine_running" == id)) [
  | inl a ↦ (rw (a, timeout_for) refl, rw (a, validate_settings) at v)
  | inr a ↦ absurd (err-ne-ok (rw (a, validate_settings) at v))
]

timeout_bounds :
    (settings : Fields)
    → validate_timeout_seconds settings ≡ ok tt
    → (second ≤ docker_timeout settings) × (docker_timeout settings ≤ 30 * second)
unfolding validate_timeout_seconds docker_timeout
timeout_bounds settings h = check-ok (keys_are ("timeout_seconds" ∷ []) settings) _ _ h λ a h1.
    check-ok (in_seconds (as_nat (lookup "timeout_seconds" settings))) _ _ h1 λ b h2.
      elim (Option-cases (as_nat (lookup "timeout_seconds" settings))) [
        | inl c ↦ absurd (ground arith)
        | inr (n, c) ↦ rw c (ground arith)
      ]

-- Under a policy that the default registry accepts, each observation has a timeout of its own,
-- between one second and thirty, the total deadline.
pub default_registry-timeout :
    (env : Env) (registry : Registry) (document : Json) (p : OperatorPolicy) (b : ObserverBinding)
    → default_registry ≡ ok registry
    → load_policy env registry document ≡ ok p
    → Memᴰ b p.bindings
    → (t : ℕ) × (timeout_for registry b.observer_id b.settings ≡ ok t)
      × (second ≤ t)
      × (t ≤ registry.deadline)
default_registry-timeout env registry document p b d h m =
    let is : fixed ≡ registry = ok-injective (sym default-fixed ∙ d) in
    let checked = (load_policy-IsPolicy env registry document p h).valid b m in
    let (timed, v) =
      only_observer b.observer_id b.settings
        (subst (λ r. validate_settings r b.observer_id b.settings ≡ ok tt) (sym is) checked) in
    let (low, high) = timeout_bounds b.settings v in
    (
      docker_timeout b.settings,
      subst (λ r. timeout_for r b.observer_id b.settings ≡ ok (docker_timeout b.settings)) is timed,
      low,
      subst (λ (r : Registry). docker_timeout b.settings ≤ r.deadline) is high,
    )
