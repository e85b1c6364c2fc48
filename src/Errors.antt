-- ===== src/Errors.antt =====
-- The exceptions: errors.py, the typed errors of the other modules, and the standard library's
-- that the code raises or catches. Each carries the message that it is raised with.
use ops_guard.Prelude.{String, Bool, true, false, ◌≡◌, refl, ◌⊎◌, inl, inr, arith}

pub data Error : Type 0 where
  -- ProposalError and its subclasses
  proposal_error unknown_token invocation_mismatch token_consumed token_expired : String → Error
  frozen_tampered malformed_authorization : String → Error
  malformed_runbook unverified_runbook tampered_runbook unknown_passage : String → Error
  policy_error observer_error observer_timeout : String → Error
  catalog_error binding_resolution : String → Error
  -- ApprovalError and its subclasses
  approval_error host_supplied operator_mismatch replayed already_recorded : String → Error
  -- RuntimeError and ValueError, and their subclasses
  audit_write_failure value_error configuration_error : String → Error
  -- sqlite3.Error and sqlite3.IntegrityError
  sqlite_error integrity_error : String → Error
  key_error type_error overflow_error os_error timeout_error : String → Error
  -- fastmcp's ToolError
  tool_error : String → Error
  -- any other exception, such as KeyboardInterrupt
  other_error : String → Error

-- `str(error)`
pub message : Error → String
message (proposal_error s) = s
message (unknown_token s) = s
message (invocation_mismatch s) = s
message (token_consumed s) = s
message (token_expired s) = s
message (frozen_tampered s) = s
message (malformed_authorization s) = s
message (malformed_runbook s) = s
message (unverified_runbook s) = s
message (tampered_runbook s) = s
message (unknown_passage s) = s
message (policy_error s) = s
message (observer_error s) = s
message (observer_timeout s) = s
message (catalog_error s) = s
message (binding_resolution s) = s
message (approval_error s) = s
message (host_supplied s) = s
message (operator_mismatch s) = s
message (replayed s) = s
message (already_recorded s) = s
message (audit_write_failure s) = s
message (value_error s) = s
message (configuration_error s) = s
message (sqlite_error s) = s
message (integrity_error s) = s
message (key_error s) = s
message (type_error s) = s
message (overflow_error s) = s
message (os_error s) = s
message (timeout_error s) = s
message (tool_error s) = s
message (other_error s) = s

-- `isinstance(error, ProposalError)`
unfoldable pub is_proposal_error : Error → Bool
is_proposal_error (proposal_error _) = true
is_proposal_error (unknown_token _) = true
is_proposal_error (invocation_mismatch _) = true
is_proposal_error (token_consumed _) = true
is_proposal_error (token_expired _) = true
is_proposal_error (frozen_tampered _) = true
is_proposal_error (malformed_authorization _) = true
is_proposal_error (malformed_runbook _) = true
is_proposal_error (unverified_runbook _) = true
is_proposal_error (tampered_runbook _) = true
is_proposal_error (unknown_passage _) = true
is_proposal_error (policy_error _) = true
is_proposal_error (observer_error _) = true
is_proposal_error (observer_timeout _) = true
is_proposal_error (catalog_error _) = true
is_proposal_error (binding_resolution _) = true
is_proposal_error _ = false

-- `isinstance(error, ApprovalError)`
unfoldable pub is_approval_error : Error → Bool
is_approval_error (approval_error _) = true
is_approval_error (host_supplied _) = true
is_approval_error (operator_mismatch _) = true
is_approval_error (replayed _) = true
is_approval_error (already_recorded _) = true
is_approval_error _ = false

-- `isinstance(error, AuditWriteFailure)`
unfoldable pub is_audit_write_failure : Error → Bool
is_audit_write_failure (audit_write_failure _) = true
is_audit_write_failure _ = false

-- A call that may raise.
pub data Result {ℓ} (A : Type ℓ) : Type ℓ where
  ok : A → Result A
  err : Error → Result A

infixl 10 ◌>>=◌ ◌>>◌
abbrev pub ◌>>=◌ {ℓ κ} : {A : Type ℓ} {B : Type κ} (r : Result A) (next : A → Result B) → Result B
r >>= next = elim r [ ok value ↦ next value | err error ↦ err error ]

abbrev pub ◌>>◌ {ℓ κ} : {A : Type ℓ} {B : Type κ} → Result A → Result B → Result B
first >> second = first >>= λ _. second

pub Result-cases {ℓ} :
    {A : Type ℓ} (r : Result A)
    → ((value : A) × (r ≡ ok value)) ⊎ ((error : Error) × (r ≡ err error))
Result-cases (ok value) = inl (value, refl)
Result-cases (err error) = inr (error, refl)

-- A chain that returned: its first call did, and so did the rest.
pub chain-ok {ℓ κ μ} :
    {A : Type ℓ} {B : Type κ} {C : Type μ} (r : Result A) (next : A → Result B) {b : B}
    → (r >>= next) ≡ ok b
    → ((a : A) → r ≡ ok a → next a ≡ ok b → C)
    → C
chain-ok (ok value) next h k = k value refl h
chain-ok (err error) next h k = absurd (ground arith)

-- `if not condition: raise error`
abbrev pub check : Bool → Error → Result (Unit {0})
check true error = ok tt
check false error = err error

pub check-ok {ℓ κ} :
    {B : Type ℓ} {C : Type κ} (b : Bool) (error : Error) (next : Result B) {v : B}
    → (check b error >> next) ≡ ok v
    → (b ≡ true → next ≡ ok v → C)
    → C
check-ok true error next h k = k refl h
check-ok false error next h k = absurd (ground arith)

pub ok-injective {ℓ} : {A : Type ℓ} {a b : A} → ok a ≡ ok b → a ≡ b
ok-injective h = ground arith

-- `except … as error: raise …`: another exception in its place
abbrev pub convert {ℓ} : {A : Type ℓ} → (Error → Error) → Result A → Result A
convert f (ok value) = ok value
convert f (err error) = err (f error)

pub convert-ok {ℓ} :
    {A : Type ℓ} (f : Error → Error) (r : Result A) {a : A} → convert f r ≡ ok a → r ≡ ok a
convert-ok f (ok b) h = h
convert-ok f (err e) h = absurd (ground arith)

pub err-ne-ok {ℓ} : {A : Type ℓ} {a : A} {e : Error} → ◌≡◌ {A = Result A} (err e) (ok a) → ⊥
err-ne-ok h = ground arith
