-- ===== src/Audit/Quiet.antt =====
-- Appending an audit event runs no script.
use ops_guard.Prelude.{◌≡◌, refl, ◌∙◌, arith}
use ops_guard.Errors.{Result, ok, err}
use ops_guard.Store.{AuditEvent}
use ops_guard.Env.{Env}
use ops_guard.World.{World, Exec, ◌>>=◌, sqlite}
use ops_guard.World.Quiet.{IsQuiet, quiet_rules}
use ops_guard.Audit.{Entry, insert_event, as_write_failure, guarded, append_on, append}

as_write_failure-ran :
    {A : Type 0} (r : Result A) (w : World) → (as_write_failure (r, w)).1.ran ≡ w.ran
as_write_failure-ran (ok a) w = refl
as_write_failure-ran (err e) w = refl

guarded-Quiet : {A : Type 0} (m : Exec A) → IsQuiet m → IsQuiet (guarded m)
unfolding guarded
guarded-Quiet m k = record { at = λ w. as_write_failure-ran (m w).0 (m w).1 ∙ k.at w }

module _ (env : Env) where
  insert_event-Quiet : (e : AuditEvent) → IsQuiet (insert_event env e)
  unfolding insert_event ◌>>=◌ sqlite
  insert_event-Quiet e = record { at = λ w. ground arith }

  pub append_on-Quiet : (a : Entry) → IsQuiet (append_on env a)
  unfolding append_on
  append_on-Quiet a = search (quiet_rules, guarded-Quiet, insert_event-Quiet) depth 12

  pub append-Quiet : (a : Entry) → IsQuiet (append env a)
  unfolding append
  append-Quiet a = search (quiet_rules, append_on-Quiet)
