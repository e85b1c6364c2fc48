-- ===== src/Gate/Binding/Idle.antt =====
-- The checks of Gate/Binding write nothing.
use ops_guard.Prelude.{String, Option, none, some}
use ops_guard.Env.{Env}
use ops_guard.Store.{BindingRow, ExecutionBinding}
use ops_guard.Runbooks.{CitedPassage}
use ops_guard.ExecutionBinding.{Catalog, CatalogEntry, RunnerProfile}
use ops_guard.Proposals.{FrozenProposal, fetch_binding_on}
use ops_guard.Gate.Stage.{ExecutionRequest, Gate}
use ops_guard.Gate.Stage.Idle.{IsIdle, idle_rules, resolve-Idle}
use ops_guard.Gate.Binding.{
  resolve_evidence, resolve_token, resolve_binding_row, check_binding, resolve_script,
  script_or_refuse, check_entry, check_profile, check_catalog, match_evidence,
}

module _ (env : Env) where
  pub resolve_evidence-Idle :
      (gate : Gate) (request : ExecutionRequest) → IsIdle env (resolve_evidence gate request)
  unfolding resolve_evidence
  resolve_evidence-Idle gate request = search idle_rules

  pub resolve_token-Idle : (request : ExecutionRequest) → IsIdle env (resolve_token env request)
  unfolding resolve_token
  resolve_token-Idle request = search (idle_rules, resolve-Idle)

  check_binding-Idle :
      (frozen : FrozenProposal) (row : Option BindingRow)
      → IsIdle env (check_binding env frozen row)
  unfolding check_binding
  check_binding-Idle frozen none = search idle_rules
  check_binding-Idle frozen (some row) = search idle_rules

  pub resolve_binding_row-Idle :
      (frozen : FrozenProposal) → IsIdle env (resolve_binding_row env frozen)
  unfolding resolve_binding_row fetch_binding_on
  resolve_binding_row-Idle frozen = search (idle_rules, check_binding-Idle)

  script_or_refuse-Idle :
      (frozen : FrozenProposal) (bytes : Option String) → IsIdle env (script_or_refuse frozen bytes)
  script_or_refuse-Idle frozen none = search idle_rules
  script_or_refuse-Idle frozen (some bytes) = search idle_rules

  pub resolve_script-Idle :
      (frozen : FrozenProposal) (binding : ExecutionBinding)
      → IsIdle env (resolve_script env frozen binding)
  unfolding resolve_script
  resolve_script-Idle frozen binding = search (idle_rules, script_or_refuse-Idle)

  check_entry-Idle :
      (frozen : FrozenProposal) (binding : ExecutionBinding) (entry : Option CatalogEntry)
      → IsIdle env (check_entry env frozen binding entry)
  unfolding check_entry
  check_entry-Idle frozen binding none = search idle_rules
  check_entry-Idle frozen binding (some entry) = search idle_rules

  check_profile-Idle :
      (frozen : FrozenProposal) (binding : ExecutionBinding) (profile : Option RunnerProfile)
      → IsIdle env (check_profile env frozen binding profile)
  unfolding check_profile
  check_profile-Idle frozen binding none = search idle_rules
  check_profile-Idle frozen binding (some profile) = search idle_rules

  pub check_catalog-Idle :
      (catalog : Option Catalog) (frozen : FrozenProposal) (binding : ExecutionBinding)
      → IsIdle env (check_catalog env catalog frozen binding)
  unfolding check_catalog
  check_catalog-Idle none frozen binding = search idle_rules
  check_catalog-Idle (some catalog) frozen binding =
      search (idle_rules, check_entry-Idle, check_profile-Idle)

  pub match_evidence-Idle :
      (request : ExecutionRequest) (frozen : FrozenProposal) (evidence : CitedPassage)
      → IsIdle env (match_evidence env request frozen evidence)
  unfolding match_evidence
  match_evidence-Idle request frozen evidence = search idle_rules
