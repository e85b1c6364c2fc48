-- ===== src/Tools.antt =====
-- proposal_tool.py and retrieval.py: the tools that the MCP server offers to the host.
pub mod Convert
pub mod Propose
pub mod Run
pub mod Search
use ops_guard.Prelude.{String, Bool, true, false, ◌||◌, ◌⊕◌, if◌then◌else◌}
use ops_guard.Errors.{
  Error, Result, ok, err, convert, message, tool_error, malformed_runbook, unverified_runbook,
  tampered_runbook, unknown_passage, type_error, value_error, configuration_error,
  is_proposal_error, is_audit_write_failure,
}
use ops_guard.World.{World, Exec}

-- Another exception in its place, around a call that may write
unfoldable pub converted : {A : Type 0} → (Error → Error) → Exec A → Exec A
converted f call w = let (r, w') = call w in (convert f r, w')

-- `except classes as error: raise ToolError(f"{code}: {error}")`
unfoldable pub tool_failure : (Error → Bool) → String → Error → Error
tool_failure listed code error =
    if listed error then tool_error (code ⊕ ": " ⊕ message error) else error

abbrev pub as_tool_error {ℓ} : {A : Type ℓ} → (Error → Bool) → String → Result A → Result A
as_tool_error listed code r = convert (tool_failure listed code) r

abbrev pub reported : {A : Type 0} → (Error → Bool) → String → Exec A → Exec A
reported listed code call = converted (tool_failure listed code) call

-- The four exceptions that a tool reports as `invalid_citation`
unfoldable pub is_citation_error : Error → Bool
is_citation_error (malformed_runbook _) = true
is_citation_error (unverified_runbook _) = true
is_citation_error (tampered_runbook _) = true
is_citation_error (unknown_passage _) = true
is_citation_error _ = false

-- `isinstance(error, ValueError)`
unfoldable pub is_value_error : Error → Bool
is_value_error (value_error _) = true
is_value_error (configuration_error _) = true
is_value_error _ = false

-- `(TypeError, ValueError)`
unfoldable pub is_invalid_value : Error → Bool
unfolding is_value_error
is_invalid_value (type_error _) = true
is_invalid_value error = is_value_error error

-- `(ProposalError, AuditWriteFailure, ValueError)`
unfoldable pub is_write_failure : Error → Bool
unfolding is_value_error
is_write_failure error =
    is_proposal_error error || (is_audit_write_failure error || is_value_error error)
