-- ===== src/Proposals/Open/Unended.antt =====
-- proposals.py: the body of `open_proposal`'s transaction leaves it open.
use ops_guard.Prelude.{String, Option, none, some, List, arith}
use ops_guard.Json.{Json}
use ops_guard.Store.{ProposalRow, BindingRow}
use ops_guard.Env.{Env}
use ops_guard.World.{sqlite, ◌>>=◌}
use ops_guard.World.Unended.{IsUnended, unended_rules}
use ops_guard.Audit.Unended.{append_on-Unended}
use ops_guard.ExecutionBinding.{Template}
use package.ops_guard.Proposals.Open.{insert_proposal, insert_binding, bind, store_proposal}

module _ (env : Env) where
  insert_proposal-Unended : (row : ProposalRow) → IsUnended (insert_proposal env row)
  unfolding insert_proposal ◌>>=◌ sqlite
  insert_proposal-Unended row = record { at = λ w. ground arith }

  insert_binding-Unended : (row : BindingRow) → IsUnended (insert_binding env row)
  unfolding insert_binding ◌>>=◌ sqlite
  insert_binding-Unended row = record { at = λ w. ground arith }

  bind-Unended :
      (template : Option Template) (id digest : String) → IsUnended (bind env template id digest)
  unfolding bind
  bind-Unended none id digest = search unended_rules
  bind-Unended (some t) id digest = search (unended_rules, insert_binding-Unended)

  pub store_proposal-Unended :
      (row : ProposalRow) (template : Option Template) (refs : List String) (snapshot : Option Json)
      → IsUnended (store_proposal env row template refs snapshot)
  unfolding store_proposal
  store_proposal-Unended row template refs snapshot =
      search (unended_rules, insert_proposal-Unended, bind-Unended, append_on-Unended) depth 12
