-- ===== src/Tools/Propose.antt =====
-- proposal_tool.py: `propose_fix`, from the arguments that the schema has admitted.
pub mod Proposed
use ops_guard.Prelude.{
  ℕ, String, Bool, true, false, not, ◌&&◌, ◌||◌, Option, none, some, List, [], ◌∷◌, ◌==◌, ◌⊕◌,
  if◌then◌else◌,
}
use ops_guard.Json.{Json, arr}
use ops_guard.Errors.{Error, Result, ok, ◌>>=◌, ◌>>◌, check, tool_error, is_proposal_error}
use ops_guard.Env.{Env, canonicalize_json}
use ops_guard.World.{World, Exec, lift}
use ops_guard.World as W
use ops_guard.Invocation.{Invocation, canonical_bytes}
use ops_guard.Authorization.{precondition_items}
use ops_guard.Runbooks.{Citation, CitedPassage, Library, resolve_citation}
use ops_guard.ExecutionBinding.{Catalog, CatalogKey, Template, resolve_binding}
use ops_guard.Judge.Projection.{LocalJudge}
use ops_guard.Judge.{evaluate_risk, judge_state}
use ops_guard.Proposals.Open.{IssuedProposal, open_proposal}
use package.ops_guard.Tools.{
  as_tool_error, reported, is_citation_error, is_invalid_value, is_write_failure,
}

-- The configuration of the tool
pub record ProposeConfig : Type 0 where
  pub library : Library
  pub ttl : ℕ
  pub judge : LocalJudge
  pub execution_catalog : Option Catalog

-- `citation_ref`
abbrev pub citation_ref : Citation → List String
citation_ref c = (c.runbook_id ⊕ "@" ⊕ c.revision) ∷ c.content_hash ∷ c.locator ∷ []

-- `_canonical(left) == _canonical(right)`
unfoldable pub canonical_equal : Env → Json → Json → Result Bool
canonical_equal env left right = do
  a ← canonicalize_json env left
  b ← canonicalize_json env right
  ok (a == b)

-- Whether the invocation equals the evidence; the canonical forms are compared last.
unfoldable pub equals_evidence : Env → Invocation → CitedPassage → Result Bool
unfolding canonical_equal
equals_evidence env i p =
    if i.runbook_revision_hash == p.citation.content_hash
      && (i.action == p.operation_action && i.target == p.operation_target)
    then canonical_equal env (arr i.preconditions) (arr (precondition_items p.preconditions))
    else ok false

abbrev catalog_key : Citation → Invocation → CatalogKey
catalog_key c i = record {
  runbook_id = c.runbook_id;
  revision = c.revision;
  content_hash = c.content_hash;
  action = i.action;
  target = i.target;
}

-- The execution binding, if a catalog is configured
unfoldable pub bind_execution :
    Env → Option Catalog → Citation → Invocation → Result (Option Template)
bind_execution env none c i = ok none
bind_execution env (some catalog) c i = do
  template ← resolve_binding env catalog (catalog_key c i)
  ok (some template)

abbrev evidence_mismatch : Error
evidence_mismatch = tool_error (
    "invocation_evidence_mismatch: the invocation does not equal the resolved verified evidence "
    ⊕ "(revision hash, action, target, or ordered preconditions differ)")

-- The evidence of the invocation, its binding and its advisory: all that is done before anything
-- is written
pub record Prepared : Type 0 where
  pub snapshot : Json
  pub template : Option Template

unfoldable pub prepare : Env → ProposeConfig → Invocation → Citation → Result Prepared
unfolding equals_evidence bind_execution
prepare env config i c = do
  cited ← as_tool_error is_citation_error "invalid_citation" (resolve_citation config.library c)
  equal ← equals_evidence env i cited
  check equal evidence_mismatch
  _ ← as_tool_error is_invalid_value "invalid_invocation" (canonical_bytes env i)
  snapshot ← evaluate_risk config.judge (judge_state i cited)
  template ←
      as_tool_error is_proposal_error "execution_binding_unresolved"
        (bind_execution env config.execution_catalog c i)
  ok (record { snapshot = snapshot; template = template })

-- `propose_fix`; the dictionary that it returns holds the four fields of the issued proposal.
unfoldable pub propose_fix : Env → ProposeConfig → Invocation → Citation → Exec IssuedProposal
unfolding prepare
propose_fix env config i c = W.◌>>=◌ (lift (prepare env config i c)) λ p.
    reported is_write_failure "proposal_write_failed"
      (open_proposal env i config.ttl (citation_ref c) (some p.snapshot) p.template)
