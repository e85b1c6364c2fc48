-- ===== src/Gate/Stage.antt =====
-- gate.py: requests, outcomes and configuration of the gate, and checks that may refuse.
pub mod Idle
pub mod Passed
use ops_guard.Prelude.{ℕ, String, Bool, Option, none, some, List, if◌then◌else◌}
use ops_guard.Json.{Json, Fields}
use ops_guard.Errors.{Error, Result, ok, err}
use ops_guard.World.{World, Exec}
use ops_guard.Runbooks.{Citation, Library}
use ops_guard.Preconditions.{OperatorPolicy, Registry}
use ops_guard.ExecutionBinding.{Catalog}
use ops_guard.Store.{Outcome}

pub record ExecutionRequest : Type 0 where
  pub token : String
  pub citation : Citation
  pub expected_digest : Option String

-- The configuration of `ExecutionGate`. `configured_operator` is its verifier's identity, and
-- `operator_identity` the one that it presents.
pub record Gate : Type 0 where
  pub runbooks : Library
  pub registry : Registry
  pub policy : OperatorPolicy
  pub operator_identity : String
  pub configured_operator : String
  pub catalog : Option Catalog
  pub owner_id : String

-- `GateOutcome`
pub record GateOutcome : Type 0 where
  pub dispatched : Bool
  pub refusal : Option String
  pub proposal_id : Option String
  pub authorization_path : Option String
  pub outcome : Outcome

-- The arguments of a call of `refuse`, with the proposal id that it closes over.
pub record Refusal : Type 0 where
  pub reason : String
  pub proposal_id : Option String
  pub digest : Option String
  pub failure_code : Option String
  pub observation : Option Fields

-- A check passes with a value, refuses, or lets an exception escape.
pub data Verdict (A : Type 0) : Type 0 where
  passed : A → Verdict A
  refused : Refusal → Verdict A
  escaped : Error → Verdict A

abbrev pub Stage : Type 0 → Type 0
Stage A = World → Verdict A × World

abbrev pub pass : {A : Type 0} → A → Stage A
pass a w = (passed a, w)

abbrev pub refuse : {A : Type 0} → Refusal → Stage A
refuse r w = (refused r, w)

-- `if not test: return refuse(…)`
abbrev pub require : Bool → Refusal → Stage (Unit {0})
require test r = if test then pass tt else refuse r

abbrev pub onward : {A B : Type 0} → Verdict A → (A → Stage B) → Stage B
onward (passed a) f w = f a w
onward (refused r) f w = (refused r, w)
onward (escaped e) f w = (escaped e, w)

infixl 10 ◌>>=◌ ◌>>◌
unfoldable pub ◌>>=◌ : {A B : Type 0} → Stage A → (A → Stage B) → Stage B
◌>>=◌ m f w = let (v, w') = m w in onward v f w'

abbrev pub ◌>>◌ : {B : Type 0} → Stage (Unit {0}) → Stage B → Stage B
m >> k = m >>= λ _. k

-- `try: … except …: return refuse(…)`: the handler says which exceptions it takes.
abbrev pub handle : {A : Type 0} → (Error → Option Refusal) → Result A → Verdict A
handle handler (ok a) = passed a
handle handler (err e) = elim (handler e) [ none ↦ escaped e | some r ↦ refused r ]

abbrev pub attempt : {A : Type 0} → Exec A → (Error → Option Refusal) → Stage A
attempt m handler w = let (r, w') = m w in (handle handler r, w')

-- A call outside every `try`
abbrev pub call : {A : Type 0} → Exec A → Stage A
call m = attempt m (λ _. none)

-- A call whose result, or exception, the next check looks at
unfoldable pub inspect : {A B : Type 0} → Exec A → (Result A → Stage B) → Stage B
inspect m k w = let (r, w') = m w in k r w'

abbrev pub escape : {A : Type 0} → Error → Stage A
escape e w = (escaped e, w)
