-- ===== src/Gate/Stage/Idle.antt =====
-- Checks that write nothing: one rule for each way to build one.
use ops_guard.Prelude.{String, Bool, true, false, Option, if◌then◌else◌}
use ops_guard.Errors.{Error, Result}
use ops_guard.Env.{Env}
use ops_guard.Store.{Db}
use ops_guard.World as W
use ops_guard.World.{World, Exec, tick, read, stamp, now, gets, lift, raise}
use ops_guard.World.Within.{
  Within, Idle, Idle-preorder, Within-bind, Within-lift, Within-raise, Within-gets, now-Idle,
  stamp-Idle, tick-Idle, read-Idle,
}
use ops_guard.Proposals.{resolve, resolve_on}
use ops_guard.Gate.Stage.{
  Refusal, Verdict, passed, refused, escaped, Stage, pass, refuse, escape, inspect, require, onward,
  ◌>>=◌, attempt,
}

module _ (env : Env) where
  abbrev pub IsIdle : {X : Type 0} → (World → X × World) → Type 0
  IsIdle m = Within (Idle env) m

  pub IsIdle-pass : {A : Type 0} (a : A) → IsIdle (pass a)
  IsIdle-pass a = record { at = λ w. (Idle-preorder env).stay w }

  pub IsIdle-refuse : {A : Type 0} (r : Refusal) → IsIdle (refuse {A = A} r)
  IsIdle-refuse r = record { at = λ w. (Idle-preorder env).stay w }

  pub IsIdle-attempt :
      {A : Type 0} (m : Exec A) (h : Error → Option Refusal) → IsIdle m → IsIdle (attempt m h)
  IsIdle-attempt m h km = record { at = λ w. km.at w }

  pub IsIdle-lift : {A : Type 0} (r : Result A) → IsIdle (lift r)
  IsIdle-lift r = Within-lift (Idle-preorder env) r

  pub IsIdle-raise : {A : Type 0} (e : Error) → IsIdle (raise {A = A} e)
  IsIdle-raise e = Within-raise (Idle-preorder env) e

  pub IsIdle-gets : {A : Type 0} (f : Db → A) → IsIdle (gets f)
  IsIdle-gets f = Within-gets (Idle-preorder env) f

  pub IsIdle-now : IsIdle (now env)
  IsIdle-now = now-Idle env

  pub IsIdle-stamp : IsIdle (stamp env)
  IsIdle-stamp = stamp-Idle env

  pub IsIdle-tick : IsIdle tick
  IsIdle-tick = tick-Idle env

  pub IsIdle-read : {A : Type 0} (m : Exec A) → IsIdle m → IsIdle (read env m)
  IsIdle-read = read-Idle env

  pub IsIdle-exec :
      {A B : Type 0} (m : Exec A) (f : A → Exec B)
      → IsIdle m
      → ((a : A) → IsIdle (f a))
      → IsIdle (W.◌>>=◌ m f)
  IsIdle-exec m f km kf = Within-bind (Idle-preorder env) m f km kf

  pub IsIdle-onward :
      {A B : Type 0} (v : Verdict A) (f : A → Stage B)
      → ((a : A) → IsIdle (f a))
      → IsIdle (onward v f)
  IsIdle-onward (passed a) f kf = record { at = λ w. (kf a).at w }
  IsIdle-onward (refused r) f kf = record { at = λ w. (Idle-preorder env).stay w }
  IsIdle-onward (escaped e) f kf = record { at = λ w. (Idle-preorder env).stay w }

  pub IsIdle-bind :
      {A B : Type 0} (m : Stage A) (f : A → Stage B)
      → IsIdle m
      → ((a : A) → IsIdle (f a))
      → IsIdle (m >>= f)
  unfolding ◌>>=◌
  IsIdle-bind m f km kf = record {
    at = λ w.
        (Idle-preorder env).chain w (m w).1 _ (km.at w) ((IsIdle-onward (m w).0 f kf).at (m w).1);
  }

  pub IsIdle-escape : {A : Type 0} (e : Error) → IsIdle (escape {A = A} e)
  IsIdle-escape e = record { at = λ w. (Idle-preorder env).stay w }

  pub IsIdle-inspect :
      {A B : Type 0} (m : Exec A) (k : Result A → Stage B)
      → IsIdle m
      → ((r : Result A) → IsIdle (k r))
      → IsIdle (inspect m k)
  unfolding inspect
  IsIdle-inspect m k km kk = record {
    at = λ w. (Idle-preorder env).chain w (m w).1 _ (km.at w) ((kk (m w).0).at (m w).1);
  }

  pub IsIdle-if :
      {A : Type 0} (b : Bool) (m n : Stage A) → IsIdle m → IsIdle n → IsIdle (if b then m else n)
  IsIdle-if true m n km kn = km
  IsIdle-if false m n km kn = kn

  pub IsIdle-require : (b : Bool) (r : Refusal) → IsIdle (require b r)
  IsIdle-require true r = IsIdle-pass tt
  IsIdle-require false r = IsIdle-refuse r

  pub IsIdle-exec_if :
      {A : Type 0} (b : Bool) (m n : Exec A) → IsIdle m → IsIdle n → IsIdle (if b then m else n)
  IsIdle-exec_if true m n km kn = km
  IsIdle-exec_if false m n km kn = kn

pub ruleset idle_rules = (
  IsIdle-pass, IsIdle-refuse, IsIdle-raise, IsIdle-attempt, IsIdle-lift, IsIdle-gets, IsIdle-now,
  IsIdle-stamp, IsIdle-tick, IsIdle-read, IsIdle-exec, IsIdle-bind, IsIdle-if, IsIdle-require,
  IsIdle-escape, IsIdle-inspect, IsIdle-exec_if,
)

pub resolve-Idle :
    (env : Env) (token : String) (d : Option String) → IsIdle env (resolve env token d)
unfolding resolve resolve_on
resolve-Idle env token d = search idle_rules
