-- ===== src/ExecutionBinding/Resolution.antt =====
-- execution_binding.py: `resolve_binding` binds only an unambiguous catalog.
use ops_guard.Prelude.{List, [], ◌∷◌, ◌≡◌, refl, arith, inl, inr}
use ops_guard.Errors.{ok, Result-cases}
use ops_guard.Env.{Env}
use package.ops_guard.ExecutionBinding.{
  Catalog, CatalogEntry, RunnerProfile, CatalogKey, Template, template, matching, select,
  resolve_binding, entry_digest, profile_digest,
}

-- One entry has the key and one profile is declared, and the template is theirs.
pub record IsResolved (env : Env) (c : Catalog) (k : CatalogKey) (t : Template) : Type 0 where
  pub entry : CatalogEntry
  pub only : matching k c.entries ≡ entry ∷ []
  pub profile : RunnerProfile
  pub only_profile : c.profiles ≡ profile ∷ []
  pub entry_is : entry_digest env entry ≡ ok t.catalog_entry_digest
  pub profile_is : profile_digest env profile ≡ ok t.runner_profile_digest
  pub runbook_id : t.runbook_id ≡ entry.runbook_id
  pub revision : t.runbook_revision ≡ entry.revision
  pub content_hash : t.runbook_content_hash ≡ entry.content_hash
  pub script_id : t.script_id ≡ entry.script_id
  pub script_path : t.script_path ≡ entry.script_path
  pub script_sha256 : t.script_sha256 ≡ entry.script_sha256
  pub profile_id : t.runner_profile_id ≡ profile.profile_id

module _ (env : Env) (c : Catalog) (k : CatalogKey) (t : Template) where
  template-IsResolved :
      (e : CatalogEntry) (p : RunnerProfile)
      → matching k c.entries ≡ e ∷ []
      → c.profiles ≡ p ∷ []
      → template env e p ≡ ok t
      → IsResolved env c k t
  template-IsResolved e p m q h = elim (Result-cases (entry_digest env e)) [
    | inr (x, a) ↦ absurd (ground arith)
    | inl (d, a) ↦ elim (Result-cases (profile_digest env p)) [
      | inr (x, b) ↦ absurd (ground arith)
      | inl (f, b) ↦ record {
        entry = e;
        only = m;
        profile = p;
        only_profile = q;
        entry_is = ground arith;
        profile_is = ground arith;
        runbook_id = ground arith;
        revision = ground arith;
        content_hash = ground arith;
        script_id = ground arith;
        script_path = ground arith;
        script_sha256 = ground arith;
        profile_id = ground arith;
      }
    ]
  ]

  select-IsResolved :
      (es : List CatalogEntry) (ps : List RunnerProfile)
      → matching k c.entries ≡ es
      → c.profiles ≡ ps
      → select env k es ps ≡ ok t
      → IsResolved env c k t
  unfolding select
  select-IsResolved (e ∷ []) (p ∷ []) m q h = template-IsResolved e p m q h
  select-IsResolved [] ps m q h = absurd (ground arith)
  select-IsResolved (e ∷ []) [] m q h = absurd (ground arith)
  select-IsResolved (e ∷ []) (p ∷ p' ∷ ps) m q h = absurd (ground arith)
  select-IsResolved (e ∷ e' ∷ es) ps m q h = absurd (ground arith)

  -- A template is resolved only when exactly one catalog entry has the key and exactly one runner
  -- profile is declared; it carries the fields of both and their digests.
  pub resolve_binding-IsResolved : resolve_binding env c k ≡ ok t → IsResolved env c k t
  unfolding resolve_binding
  resolve_binding-IsResolved h = select-IsResolved _ _ refl refl h
