-- ===== src/Proposals/Keeps.antt =====
-- Calls that leave the proposals alone: one rule for each way to build one.
pub mod Append
use ops_guard.Prelude.{Bool, List, Option, ◌≡◌, refl, ◌∙◌, ap, arith, if◌then◌else◌}
use ops_guard.Errors.{Error, Result, ok, err}
use ops_guard.Store.{Db, ApprovalRow}
use ops_guard.Env.{Env}
use ops_guard.World.{World, Exec, pure, raise, lift, ◌>>=◌, gets, modify, now, new_uuid, sqlite}
use ops_guard.World.Within.{
  Within, IsPreorder, Within-bind, Within-lift, Within-pure, Within-raise, Within-gets, Within-if,
  sqlite_world, now_world,
}

-- The call leaves the proposals alone.
abbrev pub KeepsProposals : World → World → Type 0
KeepsProposals w w' = w'.db.proposals ≡ w.db.proposals

abbrev pub Keeps : {X : Type 0} → (World → X × World) → Type 0
Keeps m = Within KeepsProposals m

keeps-IsPreorder : IsPreorder KeepsProposals
keeps-IsPreorder = record { stay = λ w. refl; chain = λ u v w p q. q ∙ p }

pub Keeps-pure : {A : Type 0} (a : A) → Keeps (pure a)
Keeps-pure a = Within-pure keeps-IsPreorder a

pub Keeps-raise : {A : Type 0} (e : Error) → Keeps (raise {A = A} e)
Keeps-raise e = Within-raise keeps-IsPreorder e

pub Keeps-lift : {A : Type 0} (r : Result A) → Keeps (lift r)
Keeps-lift r = Within-lift keeps-IsPreorder r

pub Keeps-gets : {A : Type 0} (f : Db → A) → Keeps (gets f)
Keeps-gets f = Within-gets keeps-IsPreorder f

pub Keeps-bind :
    {A B : Type 0} (m : Exec A) (f : A → Exec B)
    → Keeps m
    → ((a : A) → Keeps (f a))
    → Keeps (m >>= f)
Keeps-bind m f km kf = Within-bind keeps-IsPreorder m f km kf

pub Keeps-if :
    {A : Type 0} (b : Bool) (m n : Exec A) → Keeps m → Keeps n → Keeps (if b then m else n)
Keeps-if b m n km kn = Within-if keeps-IsPreorder b m n km kn

pub Keeps-modify_approvals :
    (f : Db → List ApprovalRow) → Keeps (modify (λ db. record db { approvals = f db }))
Keeps-modify_approvals f = record { at = λ w. refl }

module _ (env : Env) where
  pub Keeps-sqlite : Keeps (sqlite env)
  Keeps-sqlite = record { at = λ w. rw sqlite_world refl }

  pub Keeps-now : Keeps (now env)
  Keeps-now = record { at = λ w. rw now_world refl }

  pub Keeps-uuid : Keeps (new_uuid env)
  unfolding new_uuid
  Keeps-uuid = record { at = λ w. refl }

pub ruleset keeps_rules = (
  Keeps-pure, Keeps-raise, Keeps-lift, Keeps-gets, Keeps-bind, Keeps-if, Keeps-now, Keeps-uuid,
  Keeps-sqlite, Keeps-modify_approvals,
)
