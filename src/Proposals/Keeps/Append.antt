-- ===== src/Proposals/Keeps/Append.antt =====
-- An append to the audit log leaves the proposals alone.
use ops_guard.Prelude.{◌≡◌, refl, ◌∙◌, arith}
use ops_guard.Errors.{Result, ok, err}
use ops_guard.Store.{AuditEvent}
use ops_guard.Env.{Env}
use ops_guard.World.{World, Exec, ◌>>=◌, sqlite}
use ops_guard.Audit.{Entry, insert_event, as_write_failure, guarded, append_on}
use ops_guard.Proposals.Keeps.{Keeps, keeps_rules}

failed-db :
    {A : Type 0} (r : Result A) (w : World)
    → (as_write_failure (r, w)).1.db.proposals ≡ w.db.proposals
failed-db (ok a) w = refl
failed-db (err e) w = refl

guarded-Keeps : {A : Type 0} (m : Exec A) → Keeps m → Keeps (guarded m)
unfolding guarded
guarded-Keeps m k = record { at = λ w. failed-db (m w).0 (m w).1 ∙ k.at w }

module _ (env : Env) where
  insert_event-Keeps : (e : AuditEvent) → Keeps (insert_event env e)
  unfolding insert_event ◌>>=◌ sqlite
  insert_event-Keeps e = record { at = λ w. ground arith }

  pub append_on-Keeps : (a : Entry) → Keeps (append_on env a)
  unfolding append_on
  append_on-Keeps a = search (keeps_rules, guarded-Keeps, insert_event-Keeps) depth 12
