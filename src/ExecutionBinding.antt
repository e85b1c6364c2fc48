-- ===== src/ExecutionBinding.antt =====
-- execution_binding.py: the operator's catalog, and the immutable binding of a proposal.
pub mod Resolution
pub mod Load
pub mod Runner
use ops_guard.Prelude.{
  ℕ, String, Bool, true, false, ◌&&◌, Option, none, some, List, [], ◌∷◌, ◌==◌, ◌⊕◌, if◌then◌else◌,
}
use ops_guard.Json.{Json, Fields, strs, str, nat, arr, obj, texts, field, end}
use ops_guard.Errors.{Result, ok, err, ◌>>=◌, binding_resolution}
use ops_guard.Store.{ExecutionBinding}
use ops_guard.Env.{Env, document_digest}

pub record CatalogEntry : Type 0 where
  pub runbook_id : String
  pub revision : String
  pub content_hash : String
  pub action : String
  pub target : String
  pub script_id : String
  pub script_path : String
  pub script_sha256 : String

pub record RunnerProfile : Type 0 where
  pub profile_id : String
  pub executable : String
  pub executable_sha256 : String
  pub argv : List String
  pub working_directory : String
  pub env_allowlist : List String
  pub timeout_seconds : ℕ
  pub output_limit : ℕ

-- The two dictionaries that `load_execution_catalog` returns: entries by their key, which is made
-- of their own fields, and profiles by id.
pub record Catalog : Type 0 where
  pub entries : List CatalogEntry
  pub profiles : List RunnerProfile

-- The document that `catalog_entry_digest` covers
abbrev pub entry_document : CatalogEntry → Json
entry_document e = obj (
    strs (
      ("runbook_id", e.runbook_id)
      ∷ ("revision", e.revision)
      ∷ ("content_hash", e.content_hash)
      ∷ ("action", e.action)
      ∷ ("target", e.target)
      ∷ ("script_id", e.script_id)
      ∷ ("script_path", e.script_path)
      ∷ ("script_sha256", e.script_sha256)
      ∷ []))

-- `RunnerProfile.digest`, before hashing
abbrev pub profile_document : RunnerProfile → Json
profile_document p = obj (
    field "schema_version" (str "ops-guard-runner-profile-v1") (
      field "profile_id" (str p.profile_id) (
        field "executable" (str p.executable) (
          field "executable_sha256" (str p.executable_sha256) (
            field "argv" (arr (texts p.argv)) (
              field "working_directory" (str p.working_directory) (
                field "env_allowlist" (arr (texts p.env_allowlist)) (
                  field "timeout_seconds" (nat p.timeout_seconds)
                    (field "output_limit" (nat p.output_limit) end)))))))))

-- `ExecutionBinding.to_document`
abbrev pub to_document : ExecutionBinding → Json
to_document b = obj (
    strs (
      ("proposal_id", b.proposal_id)
      ∷ ("invocation_digest", b.invocation_digest)
      ∷ ("runbook_id", b.runbook_id)
      ∷ ("runbook_revision", b.runbook_revision)
      ∷ ("runbook_content_hash", b.runbook_content_hash)
      ∷ ("script_id", b.script_id)
      ∷ ("script_path", b.script_path)
      ∷ ("script_sha256", b.script_sha256)
      ∷ ("catalog_entry_digest", b.catalog_entry_digest)
      ∷ ("runner_profile_id", b.runner_profile_id)
      ∷ ("runner_profile_digest", b.runner_profile_digest)
      ∷ []))

-- `canonical_binding_digest(binding)`, which `ExecutionBinding.digest` is too
abbrev pub binding_digest : Env → ExecutionBinding → Result String
binding_digest env b = document_digest env (to_document b)

abbrev pub entry_digest : Env → CatalogEntry → Result String
entry_digest env e = document_digest env (entry_document e)

abbrev pub profile_digest : Env → RunnerProfile → Result String
profile_digest env p = document_digest env (profile_document p)

-- `ExecutionBindingTemplate`
pub record Template : Type 0 where
  pub runbook_id : String
  pub runbook_revision : String
  pub runbook_content_hash : String
  pub script_id : String
  pub script_path : String
  pub script_sha256 : String
  pub catalog_entry_digest : String
  pub runner_profile_id : String
  pub runner_profile_digest : String

-- `ExecutionBindingTemplate.finalize`
abbrev pub finalize : Template → String → String → ExecutionBinding
finalize t proposal_id invocation_digest = record {
  proposal_id = proposal_id;
  invocation_digest = invocation_digest;
  runbook_id = t.runbook_id;
  runbook_revision = t.runbook_revision;
  runbook_content_hash = t.runbook_content_hash;
  script_id = t.script_id;
  script_path = t.script_path;
  script_sha256 = t.script_sha256;
  catalog_entry_digest = t.catalog_entry_digest;
  runner_profile_id = t.runner_profile_id;
  runner_profile_digest = t.runner_profile_digest;
}

-- The key of a catalog entry
pub record CatalogKey : Type 0 where
  pub runbook_id : String
  pub revision : String
  pub content_hash : String
  pub action : String
  pub target : String

-- `entry.key() == key`
abbrev pub has_catalog_key : CatalogKey → CatalogEntry → Bool
has_catalog_key k e =
    e.runbook_id == k.runbook_id
    && (e.revision == k.revision
        && (e.content_hash == k.content_hash && (e.action == k.action && e.target == k.target)))

unfoldable pub matching : CatalogKey → List CatalogEntry → List CatalogEntry
matching k [] = []
matching k (e ∷ es) = if has_catalog_key k e then e ∷ matching k es else matching k es

-- `resolve_binding`, once one entry and one profile are found
abbrev pub template : Env → CatalogEntry → RunnerProfile → Result Template
template env e p = do
  entry ← entry_digest env e
  profile ← profile_digest env p
  ok (record {
    runbook_id = e.runbook_id;
    runbook_revision = e.revision;
    runbook_content_hash = e.content_hash;
    script_id = e.script_id;
    script_path = e.script_path;
    script_sha256 = e.script_sha256;
    catalog_entry_digest = entry;
    runner_profile_id = p.profile_id;
    runner_profile_digest = profile;
  })

-- `resolve_binding`
select : Env → CatalogKey → List CatalogEntry → List RunnerProfile → Result Template
select env k [] ps = err (binding_resolution "no execution catalog entry maps the invocation")
select env k (e ∷ []) (p ∷ []) = template env e p
select env k (e ∷ []) _ =
    err (binding_resolution "the execution catalog must declare exactly one runner profile")
select env k _ ps = err (binding_resolution "the execution catalog maps the invocation ambiguously")

unfoldable pub resolve_binding : Env → Catalog → CatalogKey → Result Template
unfolding select matching
resolve_binding env c k = select env k (matching k c.entries) c.profiles
