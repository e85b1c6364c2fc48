-- ===== src/World/Unended.antt =====
-- Calls that leave the open transaction open: one rule for each way to build one.
use ops_guard.Prelude.{Bool, ◌≡◌, refl, ◌∙◌, if◌then◌else◌}
use ops_guard.Errors.{Error, Result}
use ops_guard.Store.{Db}
use ops_guard.Env.{Env}
use ops_guard.World.{World, Exec, pure, raise, lift, ◌>>=◌, gets, modify, now, new_uuid, sqlite}
use ops_guard.World.Within.{
  Within, IsPreorder, Within-bind, Within-lift, Within-pure, Within-raise, Within-gets, Within-if,
  sqlite_world, now_world,
}

-- The call neither begins nor ends a transaction.
abbrev pub Unended : World → World → Type 0
Unended w w' = w'.began ≡ w.began

abbrev pub IsUnended : {X : Type 0} → (World → X × World) → Type 0
IsUnended m = Within Unended m

Unended-IsPreorder : IsPreorder Unended
Unended-IsPreorder = record { stay = λ w. refl; chain = λ u v w p q. q ∙ p }

pub IsUnended-pure : {A : Type 0} (a : A) → IsUnended (pure a)
IsUnended-pure a = Within-pure Unended-IsPreorder a

pub IsUnended-raise : {A : Type 0} (e : Error) → IsUnended (raise {A = A} e)
IsUnended-raise e = Within-raise Unended-IsPreorder e

pub IsUnended-lift : {A : Type 0} (r : Result A) → IsUnended (lift r)
IsUnended-lift r = Within-lift Unended-IsPreorder r

pub IsUnended-gets : {A : Type 0} (f : Db → A) → IsUnended (gets f)
IsUnended-gets f = Within-gets Unended-IsPreorder f

pub IsUnended-modify : (f : Db → Db) → IsUnended (modify f)
IsUnended-modify f = record { at = λ w. refl }

pub IsUnended-bind :
    {A B : Type 0} (m : Exec A) (f : A → Exec B)
    → IsUnended m
    → ((a : A) → IsUnended (f a))
    → IsUnended (m >>= f)
IsUnended-bind m f km kf = Within-bind Unended-IsPreorder m f km kf

pub IsUnended-if :
    {A : Type 0} (b : Bool) (m n : Exec A)
    → IsUnended m
    → IsUnended n
    → IsUnended (if b then m else n)
IsUnended-if b m n km kn = Within-if Unended-IsPreorder b m n km kn

module _ (env : Env) where
  pub IsUnended-sqlite : IsUnended (sqlite env)
  IsUnended-sqlite = record { at = λ w. rw sqlite_world refl }

  pub IsUnended-now : IsUnended (now env)
  IsUnended-now = record { at = λ w. rw now_world refl }

  pub IsUnended-uuid : IsUnended (new_uuid env)
  unfolding new_uuid
  IsUnended-uuid = record { at = λ w. refl }

pub ruleset unended_rules = (
  IsUnended-pure, IsUnended-raise, IsUnended-lift, IsUnended-gets, IsUnended-modify, IsUnended-bind,
  IsUnended-if, IsUnended-now, IsUnended-uuid, IsUnended-sqlite,
)
