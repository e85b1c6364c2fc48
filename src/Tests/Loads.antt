-- ===== src/Tests/Loads.antt =====
-- The parsers and loaders at the documents of Tests/Documents.
use mathlib.Core.List.{Memᴰ}
use ops_guard.Prelude.{
  ℕ, ◌≤◌, ◌<◌, ◌⊎◌, true, false, some, none, List, [], ◌∷◌, ◌≡◌, ◌↔◌, refl, arith, String,
}
use ops_guard.Errors.{Result, ok, err, binding_resolution, malformed_runbook, Error}
use ops_guard.Json.{Json, null}
use ops_guard.Text.{terms, is_blank}
use ops_guard.Runbooks.{CitedPassage, Citation, resolve_citation, RunbookRevision}
use ops_guard.Runbooks.Parse.{parse_revision}
use ops_guard.Runbooks.Parse.Verified.{IsVerified, parse_revision-IsVerified}
use ops_guard.Runbooks.Document.{resolve_document, resolve_document-exact}
use ops_guard.Runbooks.Load.{load, Loaded}
use ops_guard.Runbooks.Load.Served.{Splits, load_splits}
use ops_guard.Runbooks.Search.{SearchResult, search_library, citation}
use ops_guard.Runbooks.Search.Best.{IsBest, search_library-IsBest}
use ops_guard.Runbooks.Search.Evidence.{IsSeparate, Shows, search-IsCitable}
use ops_guard.ExecutionBinding.{
  Catalog, CatalogEntry, RunnerProfile, has_catalog_key, resolve_binding, template,
}
use ops_guard.ExecutionBinding.Load.{load_execution_catalog}
use ops_guard.ExecutionBinding.Load.Profile.{IsCatalog, Resolves, load-resolve}
use ops_guard.Authorization.Parse.{parse_authorization}
use ops_guard.Authorization.Parse.Permitted.{IsPermitted, parse_authorization-IsPermitted}
use ops_guard.Preconditions.{timeout_for}
use ops_guard.Preconditions.Default.{default_registry, second}
use ops_guard.Preconditions.Policy.{load_policy}
use ops_guard.Preconditions.Policy.Loaded.{IsPolicy, load_policy-IsPolicy}
use ops_guard.Preconditions.Policy.Timeout.{default_registry-timeout}
use ops_guard.Tests.Documents.{
  reader, runbook, revision, cited, catalog_document, catalog, key, authorization, permitted,
  policy_document, policy, binding, registry,
}
use ops_guard.Tests.Documents as Documents

run_revision : parse_revision reader runbook ≡ ok revision
unfolding ops_guard.Env.document_digest ops_guard.Json.Read.as_list ops_guard.Json.Read.as_mapping
    ops_guard.Json.Read.non_blank ops_guard.Json.Read.non_empty ops_guard.Json.Read.without
    ops_guard.Json.keys_are ops_guard.Json.lookup ops_guard.Runbooks.Parse.parse_revision
    ops_guard.Text.is_blank ops_guard.Text.is_hex64
run_revision = refl

parse_revision-IsVerified_example : IsVerified reader runbook revision
parse_revision-IsVerified_example = parse_revision-IsVerified reader runbook revision run_revision

resolve_document-exact_example :
    (resolve_document reader runbook Documents.citation ≡ ok cited)
    ↔ (r : RunbookRevision) × (parse_revision reader runbook ≡ ok r)
      × (resolve_citation (r ∷ []) Documents.citation ≡ ok cited)
resolve_document-exact_example = resolve_document-exact reader runbook Documents.citation cited

load_splits_example :
    (loaded : Loaded) × (load reader (null ∷ runbook ∷ []) ≡ ok loaded)
    × Splits reader 0 (null ∷ runbook ∷ []) loaded.library loaded.rejections
load_splits_example = load_splits reader (null ∷ runbook ∷ [])

abbrev loaded : Loaded
loaded = record {
  library = revision ∷ [];
  rejections =
      record { document_index = 0; error = malformed_runbook "revision must be a JSON object" }
      ∷ [];
}

run_load : load reader (null ∷ runbook ∷ []) ≡ ok loaded
unfolding ops_guard.Env.document_digest ops_guard.Errors.is_proposal_error
    ops_guard.Json.Read.as_list ops_guard.Json.Read.as_mapping ops_guard.Json.Read.non_blank
    ops_guard.Json.Read.non_empty ops_guard.Json.Read.without ops_guard.Json.keys_are
    ops_guard.Json.lookup ops_guard.Runbooks.Load.is_excluded ops_guard.Runbooks.Load.load
    ops_guard.Runbooks.Parse.parse_revision ops_guard.Text.is_blank ops_guard.Text.is_hex64
run_load = refl

abbrev hit : SearchResult
hit = record {
  runbook_id = "restart-web";
  revision = "1";
  content_hash = Documents.digest;
  locator = "step-1";
  passage_text = "Restart the service.";
  operation_action = "restart";
  operation_target = "web-1";
  preconditions = revision.preconditions;
  verifier = "ann";
  verified_at = 7;
  applicability = "web";
  score = 2;
}

run_search : search_library loaded.library "How to restart?" 3 ≡ ok (hit ∷ [])
unfolding ops_guard.Prelude.count_if ops_guard.Runbooks.Search.search_library
    ops_guard.Text.is_blank ops_guard.Text.is_wanted ops_guard.Text.terms
run_search = refl

search_library-IsBest_example :
    (is_blank "How to restart?" ≡ false)
    × (0 < 3)
    × IsBest loaded.library (terms "How to restart?") 3 (hit ∷ [])
search_library-IsBest_example =
    search_library-IsBest loaded.library "How to restart?" 3 (hit ∷ []) run_search

alone : IsSeparate loaded.library
alone r q (Memᴰ.head a) (Memᴰ.head b) e = cc
alone r q (Memᴰ.tail a) m e = elim a [ ]
alone r q (Memᴰ.head a) (Memᴰ.tail b) e = elim b [ ]

search-IsCitable_example :
    (p : CitedPassage) × (resolve_citation loaded.library (citation hit) ≡ ok p) × Shows hit p
search-IsCitable_example =
    search-IsCitable reader (null ∷ runbook ∷ []) loaded "How to restart?" 3 (hit ∷ []) hit run_load
      alone run_search (Memᴰ.head refl)

run_catalog : load_execution_catalog reader catalog_document ≡ ok catalog
unfolding ops_guard.ExecutionBinding.Load.load_execution_catalog ops_guard.Json.Read.as_list
    ops_guard.Json.Read.as_mapping ops_guard.Json.Read.as_nat ops_guard.Json.Read.as_texts
    ops_guard.Json.keys_are ops_guard.Json.lookup ops_guard.Text.is_hex64
run_catalog = refl

load-resolve_example : IsCatalog reader catalog_document catalog × Resolves reader key catalog
load-resolve_example = load-resolve reader catalog_document catalog key run_catalog

run_authorization : parse_authorization reader authorization ≡ ok permitted
unfolding ops_guard.Authorization.Parse.parse_authorization ops_guard.Env.canonicalize_json
    ops_guard.Env.loads_json ops_guard.Json.Read.as_list ops_guard.Json.Read.as_mapping
    ops_guard.Json.Read.non_blank ops_guard.Json.keys_are ops_guard.Json.lookup
    ops_guard.Text.is_blank ops_guard.Text.is_hex64
    ops_guard.Invocation.reject_unrepresentable_numbers
run_authorization = refl

parse_authorization-IsPermitted_example : IsPermitted reader authorization permitted
parse_authorization-IsPermitted_example =
    parse_authorization-IsPermitted reader authorization permitted run_authorization

run_policy : load_policy reader registry policy_document ≡ ok policy
unfolding ops_guard.Authorization.Parse.parse_authorization ops_guard.Env.canonicalize_json
    ops_guard.Env.document_digest ops_guard.Env.loads_json ops_guard.Json.Read.as_list
    ops_guard.Json.Read.as_mapping ops_guard.Json.Read.as_nat ops_guard.Json.Read.non_blank
    ops_guard.Json.Read.non_empty ops_guard.Json.keys_are ops_guard.Json.lookup
    ops_guard.Preconditions.Default.validate_settings
    ops_guard.Preconditions.Default.validate_timeout_seconds
    ops_guard.Preconditions.Policy.load_policy ops_guard.Preconditions.find_observer
    ops_guard.Prelude.find ops_guard.Text.is_blank ops_guard.Text.is_hex64
    ops_guard.Invocation.reject_unrepresentable_numbers
run_policy = refl

load_policy-IsPolicy_example : IsPolicy reader registry policy_document policy
load_policy-IsPolicy_example =
    load_policy-IsPolicy reader registry policy_document policy run_policy

run_registry : default_registry ≡ ok registry
unfolding ops_guard.Preconditions.Default.default_registry ops_guard.Preconditions.find_observer
    ops_guard.Prelude.find
run_registry = refl

default_registry-timeout_example :
    (t : ℕ) × (timeout_for registry binding.observer_id binding.settings ≡ ok t)
    × (second ≤ t)
    × (t ≤ registry.deadline)
default_registry-timeout_example =
    default_registry-timeout reader registry policy_document policy binding run_registry run_policy
      (Memᴰ.head refl)
