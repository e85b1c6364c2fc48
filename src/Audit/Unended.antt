-- ===== src/Audit/Unended.antt =====
-- Appending an audit event leaves the caller's transaction open.
use ops_guard.Prelude.{◌≡◌, refl, ◌∙◌, arith}
use ops_guard.Errors.{Result, ok, err}
use ops_guard.Store.{AuditEvent}
use ops_guard.Env.{Env}
use ops_guard.World.{World, Exec, ◌>>=◌, sqlite}
use ops_guard.World.Unended.{IsUnended, unended_rules}
use ops_guard.Audit.{Entry, insert_event, as_write_failure, guarded, append_on}

failed-began : {A : Type 0} (r : Result A) (w : World) → (as_write_failure (r, w)).1.began ≡ w.began
failed-began (ok a) w = refl
failed-began (err e) w = refl

guarded-Unended : {A : Type 0} (m : Exec A) → IsUnended m → IsUnended (guarded m)
unfolding guarded
guarded-Unended m k = record { at = λ w. failed-began (m w).0 (m w).1 ∙ k.at w }

module _ (env : Env) where
  insert_event-Unended : (e : AuditEvent) → IsUnended (insert_event env e)
  unfolding insert_event ◌>>=◌ sqlite
  insert_event-Unended e = record { at = λ w. ground arith }

  pub append_on-Unended : (a : Entry) → IsUnended (append_on env a)
  unfolding append_on
  append_on-Unended a = search (unended_rules, guarded-Unended, insert_event-Unended) depth 12
