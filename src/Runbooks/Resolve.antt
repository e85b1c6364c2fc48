-- ===== src/Runbooks/Resolve.antt =====
-- runbooks.py and retrieval.py: which citations resolve.
use ops_guard.Prelude.{true, some, ◌==◌, ◌≡◌, ◌↔◌, arith, eq_iff, eq_refl, Option-cases, inl, inr}
use ops_guard.Errors.{ok}
use package.ops_guard.Runbooks.{
  RunbookRevision, Citation, CitedPassage, Library, is_complete, find_revision, find_passage,
  resolve_citation,
}

-- The passage that a citation names, with the operation and the preconditions of its revision.
pub record IsCited (library : Library) (c : Citation) (p : CitedPassage) : Type 0 where
  pub complete : is_complete c ≡ true
  pub revision : RunbookRevision
  pub found : find_revision c.content_hash library ≡ some revision
  pub runbook_id : c.runbook_id ≡ revision.runbook_id
  pub revision_name : c.revision ≡ revision.revision
  pub passage : find_passage c.locator revision.passages ≡ some p.passage
  pub citation : p.citation ≡ c
  pub action : p.operation_action ≡ revision.operation_action
  pub target : p.operation_target ≡ revision.operation_target
  pub preconditions : p.preconditions ≡ revision.preconditions
  pub verifier : p.verifier ≡ revision.verification.verifier

module _ (library : Library) (c : Citation) (p : CitedPassage) where
  resolve-IsCited : resolve_citation library c ≡ ok p → IsCited library c p
  unfolding resolve_citation find_revision find_passage
  resolve-IsCited h = elim (Option-cases (find_revision c.content_hash library)) [
    | inl a ↦ absurd (ground arith)
    | inr (r, a) ↦ elim (Option-cases (find_passage c.locator r.passages)) [
      | inl b ↦ absurd (ground arith)
      | inr (q, b) ↦
          let (x, y, z) : (is_complete c ≡ true)
              × (c.runbook_id == r.runbook_id ≡ true)
              × (c.revision == r.revision ≡ true) =
            ground arith in
          record {
            complete = x;
            revision = r;
            found = a;
            runbook_id = (eq_iff _ _).0 y;
            revision_name = (eq_iff _ _).0 z;
            passage = ground arith;
            citation = ground arith;
            action = ground arith;
            target = ground arith;
            preconditions = ground arith;
            verifier = ground arith;
          }
    ]
  ]

  IsCited-resolve : IsCited library c p → resolve_citation library c ≡ ok p
  unfolding resolve_citation find_revision find_passage
  IsCited-resolve i = ground (
    arith,
    i.complete,
    i.found,
    i.runbook_id,
    i.revision_name,
    i.passage,
    i.citation,
    i.action,
    i.target,
    i.preconditions,
    i.verifier,
    eq_refl c.runbook_id,
    eq_refl c.revision,
  )

  -- A citation resolves to a passage exactly when its four fields are non-empty, a verified revision
  -- has its content hash, and this revision has its runbook id, its revision and a passage at its
  -- locator; the result carries that passage and the revision's operation and preconditions.
  pub resolve_citation-exact : (resolve_citation library c ≡ ok p) ↔ IsCited library c p
  resolve_citation-exact = (resolve-IsCited, IsCited-resolve)
