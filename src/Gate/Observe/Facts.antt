-- ===== src/Gate/Observe/Facts.antt =====
-- What the observation of the preconditions has established when it passes.
use ops_guard.Prelude.{
  ℕ, ◌+◌, String, true, Option, none, some, List, ◌≡◌, ◌≢◌, refl, sym, arith, ap, eq_iff, leb, min,
  inl, inr,
}
use ops_guard.Json.{Json, Items, Fields, str, nil, cons}
use ops_guard.Errors.{Result, ok, err}
use ops_guard.Env.{Env}
use ops_guard.World.{World, lift, tick}
use ops_guard.World.Within.{Idle, Idle-preorder}
use ops_guard.Preconditions.{ObserverBinding, binding_for, timeout_for, observe}
use ops_guard.Proposals.{FrozenProposal}
use ops_guard.Gate.Stage.{ExecutionRequest, Gate, Stage, passed, ◌>>=◌, call, inspect}
use ops_guard.Gate.Stage.Passed.{bind-passed, attempt-passed, if-passed}
use ops_guard.Gate.Stage.Idle.{IsIdle, idle_rules}
use ops_guard.Gate.Observe.Idle.{observe_one-Idle}
use package.ops_guard.Gate.Observe.{
  item_at, is_text, observer_key, compare_value, refuse_observation, judge_observation,
  observe_bound, observe_mapped, observe_one, observe_from, observe_all,
}

module _ (env : Env) (gate : Gate) (request : ExecutionRequest) (frozen : FrozenProposal)
    (start : World) where
  -- The operator maps the precondition to an observer, and a run of it, after `start`, gave the
  -- required value.
  pub record IsObserved (index : ℕ) (item : Json) : Type 0 where
    pub binding : ObserverBinding
    pub mapped : binding_for gate.policy (observer_key request.citation index) ≡ some binding
    pub value : String
    pub expected : item_at "expected" item ≡ ok (str value)
    pub timeout : ℕ
    pub at : World
    pub since : Idle env start at
    pub observed :
        (observe env gate.registry binding.observer_id binding.settings timeout at).0 ≡ ok value

  -- Each item of a list, numbered from `index`
  abbrev pub AllObserved : ℕ → Items → Type 0
  AllObserved index nil = Unit
  AllObserved index (cons item rest) = IsObserved index item × AllObserved (index + 1) rest

  still_since :
      {A : Type 0} (m : Stage A) (w : World)
      → IsIdle env m
      → Idle env start w
      → Idle env start (m w).1
  still_since m w k since = (Idle-preorder env).chain start w (m w).1 since (k.at w)

  is_text_sound : (value : String) (j : Json) → is_text value j ≡ true → j ≡ str value
  is_text_sound value (str s) h = ap str (sym ((eq_iff value s).0 h))
  is_text_sound value _ h = absurd (ground arith)

  judge_observation-passed :
      (index : ℕ) (name item : Json) (observer : String) (r : Result String) (w : World)
      {seen : Fields} {w' : World}
      → judge_observation env gate request frozen index name item observer r w ≡ (passed seen, w')
      → (value : String) × (r ≡ ok value) × (item_at "expected" item ≡ ok (str value))
  unfolding judge_observation compare_value refuse_observation ◌>>=◌
  judge_observation-passed index name item observer (ok value) w h =
      let (expected, p, h1) = bind-passed (call (lift (item_at "expected" item))) _ w h in
      let same : is_text value expected ≡ true = ground arith in
      (
        value,
        refl,
        rw (sym (is_text_sound value expected same))
            (ap (λ x. x.0) (attempt-passed (lift (item_at "expected" item)) (λ _. none) w p)),
      )
  judge_observation-passed index name item observer (err e) w h = absurd (ground arith)

  refuse_observation-refuses :
      (index : ℕ) (name : Json) (observer : Option String) (outcome reason code : String)
      (w : World) {seen : Fields} {w' : World}
      → refuse_observation env gate request frozen index name observer outcome reason code w
        ≢ (passed seen, w')
  unfolding refuse_observation ◌>>=◌
  refuse_observation-refuses index name observer outcome reason code w h = ground arith

  observe_in_time-passed :
      (remaining index : ℕ) (name item : Json) (b : ObserverBinding) (w : World) {seen : Fields}
      {w' : World}
      → Idle env start w
      → binding_for gate.policy (observer_key request.citation index) ≡ some b
      → (call (lift (timeout_for gate.registry b.observer_id b.settings)) >>= λ own.
            inspect
              (observe env gate.registry b.observer_id b.settings (min own remaining))
              (judge_observation env gate request frozen index name item b.observer_id))
          w
        ≡ (passed seen, w')
      → IsObserved index item
  unfolding inspect
  observe_in_time-passed remaining index name item b w since m h =
      let (own, p, h1) =
        bind-passed (call (lift (timeout_for gate.registry b.observer_id b.settings))) _ w h in
      let (value, q, e) = judge_observation-passed index name item b.observer_id _ _ h1 in
      record {
        binding = b;
        mapped = m;
        value = value;
        expected = e;
        timeout = min own remaining;
        at = w;
        since = since;
        observed = q;
      }

  observe_bound-passed :
      (deadline index : ℕ) (name item : Json) (b : ObserverBinding) (w : World) {seen : Fields}
      {w' : World}
      → Idle env start w
      → binding_for gate.policy (observer_key request.citation index) ≡ some b
      → observe_bound env gate request frozen deadline index name item b w ≡ (passed seen, w')
      → IsObserved index item
  unfolding observe_bound
  observe_bound-passed deadline index name item b w since m h =
      let (at, p, h1) = bind-passed (call tick) _ w h in
      elim (if-passed (leb deadline (env.monotonic at)) _ _ _ h1) [
        | inl late ↦ absurd (
            refuse_observation-refuses index name (some b.observer_id) "deadline-exceeded" _ _ _
              late)
        | inr early ↦
            observe_in_time-passed _ index name item b _
              (still_since (call tick) w (search idle_rules) since) m early
      ]

  observe_mapped-passed :
      (deadline index : ℕ) (name item : Json) (b : Option ObserverBinding) (w : World)
      {seen : Fields} {w' : World}
      → Idle env start w
      → binding_for gate.policy (observer_key request.citation index) ≡ b
      → observe_mapped env gate request frozen deadline index name item b w ≡ (passed seen, w')
      → IsObserved index item
  unfolding observe_mapped refuse_observation ◌>>=◌
  observe_mapped-passed deadline index name item none w since m h = absurd (ground arith)
  observe_mapped-passed deadline index name item (some b) w since m h =
      observe_bound-passed deadline index name item b w since m h

  observe_one-passed :
      (deadline index : ℕ) (item : Json) (w : World) {seen : Fields} {w' : World}
      → Idle env start w
      → observe_one env gate request frozen deadline index item w ≡ (passed seen, w')
      → IsObserved index item
  unfolding observe_one
  observe_one-passed deadline index item w since h =
      let (name, p, h1) = bind-passed (call (lift (item_at "name" item))) _ w h in
      observe_mapped-passed deadline index name item _ _
        (still_since (call (lift (item_at "name" item))) w (search idle_rules) since) refl h1

  observe_from-passed :
      (deadline index : ℕ) (items : Items) (w : World) {seen : List Fields} {w' : World}
      → Idle env start w
      → observe_from env gate request frozen deadline index items w ≡ (passed seen, w')
      → AllObserved index items
  unfolding observe_from
  observe_from-passed deadline index nil w since h = tt
  observe_from-passed deadline index (cons item rest) w since h =
      let (seen, p, h1) =
        bind-passed (observe_one env gate request frozen deadline index item) _ w h in
      let (more, q, h2) =
        bind-passed (observe_from env gate request frozen deadline (index + 1) rest) _ _ h1 in
      (
        observe_one-passed deadline index item w since p,
        observe_from-passed deadline (index + 1) rest _
            (still_since (observe_one env gate request frozen deadline index item) w
              (observe_one-Idle env gate request frozen deadline index item) since)
            q,
      )

  pub observe_all-passed :
      {seen : List Fields} {w' : World}
      → observe_all env gate request frozen start ≡ (passed seen, w')
      → AllObserved 0 frozen.invocation.preconditions
  unfolding observe_all
  observe_all-passed h =
      let (began, p, h1) = bind-passed (call tick) _ start h in
      observe_from-passed _ 0 _ _
        (still_since (call tick) start (search idle_rules) ((Idle-preorder env).stay start)) h1
