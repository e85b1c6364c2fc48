-- ===== src/World/Quiet.antt =====
-- Calls that run no script, whatever they write: one rule for each way to build one.
use ops_guard.Prelude.{Bool, Option, none, some, ◌≡◌, refl, ◌∙◌, arith, if◌then◌else◌}
use ops_guard.Errors.{Error, Result, ok, err}
use ops_guard.Store.{Db}
use ops_guard.Env.{Env}
use ops_guard.World.{
  World, Exec, pure, raise, lift, ◌>>=◌, gets, modify, tick, sqlite, now, new_uuid, catch_up,
  opened, commit_or_close, roll_back, settle, transaction,
}
use ops_guard.World.Within.{
  Within, Quiet, Quiet-preorder, Within-bind, Within-lift, Within-pure, Within-raise, Within-gets,
  Within-if, sqlite_world, now_world,
}

abbrev pub IsQuiet : {X : Type 0} → (World → X × World) → Type 0
IsQuiet m = Within Quiet m

pub IsQuiet-pure : {A : Type 0} (a : A) → IsQuiet (pure a)
IsQuiet-pure a = Within-pure Quiet-preorder a

pub IsQuiet-raise : {A : Type 0} (e : Error) → IsQuiet (raise {A = A} e)
IsQuiet-raise e = Within-raise Quiet-preorder e

pub IsQuiet-lift : {A : Type 0} (r : Result A) → IsQuiet (lift r)
IsQuiet-lift r = Within-lift Quiet-preorder r

pub IsQuiet-gets : {A : Type 0} (f : Db → A) → IsQuiet (gets f)
IsQuiet-gets f = Within-gets Quiet-preorder f

pub IsQuiet-modify : (f : Db → Db) → IsQuiet (modify f)
IsQuiet-modify f = record { at = λ w. refl }

pub IsQuiet-tick : IsQuiet tick
IsQuiet-tick = record { at = λ w. refl }

pub IsQuiet-bind :
    {A B : Type 0} (m : Exec A) (f : A → Exec B)
    → IsQuiet m
    → ((a : A) → IsQuiet (f a))
    → IsQuiet (m >>= f)
IsQuiet-bind m f km kf = Within-bind Quiet-preorder m f km kf

pub IsQuiet-if :
    {A : Type 0} (b : Bool) (m n : Exec A) → IsQuiet m → IsQuiet n → IsQuiet (if b then m else n)
IsQuiet-if b m n km kn = Within-if Quiet-preorder b m n km kn

module _ (env : Env) where
  pub IsQuiet-sqlite : IsQuiet (sqlite env)
  IsQuiet-sqlite = record { at = λ w. rw sqlite_world refl }

  pub IsQuiet-now : IsQuiet (now env)
  IsQuiet-now = record { at = λ w. rw now_world refl }

  pub IsQuiet-uuid : IsQuiet (new_uuid env)
  unfolding new_uuid
  IsQuiet-uuid = record { at = λ w. refl }

  commit-ran :
      {A : Type 0} (a : A) (began : Option Db) (w : World)
      → (commit_or_close env a began w).1.ran ≡ w.ran
  unfolding commit_or_close
  commit-ran a none w = refl
  commit-ran a (some before) w = ground arith

  roll_back-ran :
      (A : Type 0) (e : Error) (began : Option Db) (w : World)
      → (roll_back env {A = A} e began w).1.ran ≡ w.ran
  unfolding roll_back
  roll_back-ran A e none w = refl
  roll_back-ran A e (some before) w = refl

  settle-ran : {A : Type 0} (r : Result A) (w : World) → (settle env (r, w)).1.ran ≡ w.ran
  unfolding settle
  settle-ran (ok a) w = commit-ran a w.began w
  settle-ran {A} (err e) w = roll_back-ran A e w.began w

  pub IsQuiet-transaction :
      {A : Type 0} (body : Exec A) → IsQuiet body → IsQuiet (transaction env body)
  unfolding transaction
  IsQuiet-transaction body k = IsQuiet-bind (sqlite env) _ IsQuiet-sqlite λ _. record {
    at = λ w. let w0 = opened (catch_up env w) in settle-ran (body w0).0 (body w0).1 ∙ k.at w0;
  }

pub ruleset quiet_rules = (
  IsQuiet-pure, IsQuiet-raise, IsQuiet-lift, IsQuiet-gets, IsQuiet-modify, IsQuiet-tick,
  IsQuiet-bind, IsQuiet-if, IsQuiet-sqlite, IsQuiet-now, IsQuiet-uuid, IsQuiet-transaction,
)
