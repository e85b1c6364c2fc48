-- ===== src/Runbooks/Document.antt =====
-- runbooks.py: `resolve_citation`, against a document that the caller supplies.
use ops_guard.Prelude.{true, [], ◌∷◌, ◌==◌, ◌&&◌, ◌≡◌, ◌↔◌, arith, eq_iff, eq_refl, find}
use ops_guard.Json.{Json}
use ops_guard.Errors.{
  Result, ok, ◌>>=◌, ◌>>◌, check, chain-ok, check-ok, malformed_runbook, tampered_runbook,
}
use ops_guard.Env.{Env}
use package.ops_guard.Runbooks.{
  RunbookRevision, Citation, CitedPassage, is_complete, cite, find_passage, find_revision,
  resolve_citation,
}
use package.ops_guard.Runbooks.Parse.{parse_revision}

-- The checks of a citation against a parsed revision
abbrev resolve_revision : Citation → RunbookRevision → Result CitedPassage
resolve_revision c r = do
  check (c.content_hash == r.content_hash)
      (tampered_runbook "citation is bound to a different revision content hash")
  check (c.runbook_id == r.runbook_id && c.revision == r.revision)
      (malformed_runbook "citation names a different revision")
  cite c r (find_passage c.locator r.passages)

-- `resolve_citation`
unfoldable pub resolve_document : Env → Json → Citation → Result CitedPassage
resolve_document env document c = do
  check (is_complete c) (malformed_runbook "citation fields must be non-empty strings")
  revision ← parse_revision env document
  resolve_revision c revision

-- A parsed revision as the only one of a library
resolve_revision-resolve :
    (r : RunbookRevision) (c : Citation) (p : CitedPassage)
    → is_complete c ≡ true
    → resolve_revision c r ≡ ok p
    → resolve_citation (r ∷ []) c ≡ ok p
unfolding resolve_citation find_revision find
resolve_revision-resolve r c p full h =
    check-ok (c.content_hash == r.content_hash) _ _ h
      λ a h1. let e = (eq_iff _ _).0 a in ground (arith, eq_refl r.content_hash)

resolve-resolve_revision :
    (r : RunbookRevision) (c : Citation) (p : CitedPassage)
    → resolve_citation (r ∷ []) c ≡ ok p
    → (is_complete c ≡ true) × (resolve_revision c r ≡ ok p)
unfolding resolve_citation find_revision find
resolve-resolve_revision r c p h =
    ground (arith, eq_iff r.content_hash c.content_hash, eq_iff c.content_hash r.content_hash)

-- A document resolves a citation exactly when it parses to a verified revision that resolves it as
-- the only one of a library.
pub resolve_document-exact :
    (env : Env) (document : Json) (c : Citation) (p : CitedPassage)
    → (resolve_document env document c ≡ ok p)
      ↔ (r : RunbookRevision) × (parse_revision env document ≡ ok r)
        × (resolve_citation (r ∷ []) c ≡ ok p)
unfolding resolve_document
resolve_document-exact env document c p = (
  λ h. check-ok (is_complete c) _ _ h λ a h1.
      chain-ok (parse_revision env document) _ h1
        λ r b h2. (r, b, resolve_revision-resolve r c p a h2),
  λ (r, b, h). let (a, h1) = resolve-resolve_revision r c p h in rw (a, b) h1,
)
