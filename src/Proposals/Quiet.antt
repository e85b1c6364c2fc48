-- ===== src/Proposals/Quiet.antt =====
-- Consuming a token runs no script of its own.
use ops_guard.Prelude.{String, ℕ, Option}
use ops_guard.Env.{Env}
use ops_guard.World.{Exec}
use ops_guard.World.Quiet.{IsQuiet, quiet_rules}
use ops_guard.Proposals.{lost, consume_checked, consume}

module _ (env : Env) where
  lost-Quiet : (digest : String) (expected : Option String) → IsQuiet (lost env digest expected)
  unfolding lost
  lost-Quiet digest expected = search quiet_rules depth 8

  consume_checked-Quiet :
      (digest : String) (expected : Option String) (k : String → Exec (Unit {0})) (moment : ℕ)
      → ((d : String) → IsQuiet (k d))
      → IsQuiet (consume_checked env digest expected k moment)
  unfolding consume_checked
  consume_checked-Quiet digest expected k moment h = search (quiet_rules, lost-Quiet) depth 12

  pub consume-Quiet :
      (token : String) (expected : Option String) (k : String → Exec (Unit {0}))
      → ((d : String) → IsQuiet (k d))
      → IsQuiet (consume env token expected k)
  unfolding consume
  consume-Quiet token expected k h = search (quiet_rules, consume_checked-Quiet) depth 12
