-- ===== src/Approvals/Quiet.antt =====
-- Spending an approval runs no script.
use ops_guard.Prelude.{String, Option, none, some}
use ops_guard.Store.{ApprovalRow}
use ops_guard.Env.{Env}
use ops_guard.World.Quiet.{IsQuiet, quiet_rules}
use ops_guard.Approvals.{flip, flip_if_any, spend_approval_append}

module _ (env : Env) where
  flip-Quiet : (digest : String) → IsQuiet (flip env digest)
  unfolding flip
  flip-Quiet digest = search quiet_rules depth 12

  flip_if_any-Quiet :
      (digest : String) (found : Option ApprovalRow) → IsQuiet (flip_if_any env digest found)
  unfolding flip_if_any
  flip_if_any-Quiet digest none = search quiet_rules
  flip_if_any-Quiet digest (some row) = search quiet_rules depth 12

  pub spend-Quiet : (token digest : String) → IsQuiet (spend_approval_append env token digest)
  unfolding spend_approval_append
  spend-Quiet token digest = search (quiet_rules, flip_if_any-Quiet) depth 12
