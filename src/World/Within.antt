-- ===== src/World/Within.antt =====
-- What a call may do to the world, as a relation between the world before and after: one rule for
-- each way to build a call.
use ops_guard.Prelude.{ℕ, suc, ◌≤◌, Bool, true, false, ◌≡◌, refl, ◌∙◌, arith, if◌then◌else◌}
use ops_guard.Errors.{Error, Result, ok, err}
use ops_guard.Store.{Db}
use ops_guard.Env.{Env}
use ops_guard.World.{
  World, Exec, pure, raise, lift, continue, ◌>>=◌, gets, tick, sqlite, now, stamp, catch_up, read,
}

pub record Within {X : Type 0} (R : World → World → Type 0) (m : World → X × World) : Type 0 where
  pub at : (w : World) → R w (m w).1

-- A relation that holds of an idle call, and of two calls in a row.
pub record IsPreorder (R : World → World → Type 0) : Type 0 where
  pub stay : (w : World) → R w w
  pub chain : (u v w : World) → R u v → R v w → R u w

module _ {R : World → World → Type 0} (p : IsPreorder R) where
  pub Within-lift : {A : Type 0} (r : Result A) → Within R (lift r)
  Within-lift r = record { at = λ w. p.stay w }

  pub Within-pure : {A : Type 0} (a : A) → Within R (pure a)
  Within-pure a = record { at = λ w. p.stay w }

  pub Within-raise : {A : Type 0} (e : Error) → Within R (raise {A = A} e)
  Within-raise e = record { at = λ w. p.stay w }

  pub Within-gets : {A : Type 0} (f : Db → A) → Within R (gets f)
  Within-gets f = record { at = λ w. p.stay w }

  pub Within-continue :
      {A B : Type 0} (r : Result A) (f : A → Exec B)
      → ((a : A) → Within R (f a))
      → Within R (continue r f)
  Within-continue (ok a) f kf = record { at = λ w. (kf a).at w }
  Within-continue (err e) f kf = record { at = λ w. p.stay w }

  pub Within-bind :
      {A B : Type 0} (m : Exec A) (f : A → Exec B)
      → Within R m
      → ((a : A) → Within R (f a))
      → Within R (m >>= f)
  unfolding ◌>>=◌
  Within-bind m f km kf = record {
    at = λ w. p.chain w (m w).1 _ (km.at w) ((Within-continue (m w).0 f kf).at (m w).1);
  }

  pub Within-if :
      {A : Type 0} (b : Bool) (m n : Exec A)
      → Within R m
      → Within R n
      → Within R (if b then m else n)
  Within-if true m n km kn = km
  Within-if false m n km kn = kn

pub Within-weaken :
    {X : Type 0} (R S : World → World → Type 0)
    → ((u v : World) → R u v → S u v)
    → (m : World → X × World) → Within R m
    → Within S m
Within-weaken R S le m k = record { at = λ w. le w (m w).1 (k.at w) }

-- Each step runs no script.
abbrev pub Quiet : World → World → Type 0
Quiet w w' = w'.ran ≡ w.ran

abbrev pub Quiet-preorder : IsPreorder Quiet
Quiet-preorder = record { stay = λ w. refl; chain = λ u v w p q. q ∙ p }

-- The database after some commits of other processes.
pub data Drifts (env : Env) : Db → Db → Type 0 where
  here : {a : Db} → Drifts env a a
  commit : (n : ℕ) {a b : Db} → Drifts env a b → Drifts env a (env.others n b)

pub Drifts-trans : {env : Env} {a b c : Db} → Drifts env a b → Drifts env b c → Drifts env a c
Drifts-trans p here = p
Drifts-trans p (commit n q) = commit n (Drifts-trans p q)

-- The call writes nothing: whatever changed, other processes committed; and no script ran. The
-- world after it is no earlier.
pub record Idle (env : Env) (w w' : World) : Type 0 where
  pub drift : Drifts env w.db w'.db
  pub later : w.ticks ≤ w'.ticks
  pub quiet : w'.ran ≡ w.ran

pub Idle-preorder : (env : Env) → IsPreorder (Idle env)
Idle-preorder env = record {
  stay = λ w. record { drift = here; later = omega arith; quiet = refl };
  chain = λ u v w p q. record {
    drift = Drifts-trans p.drift q.drift;
    later = omega (arith, p.later, q.later);
    quiet = q.quiet ∙ p.quiet;
  };
}

module _ (env : Env) where
  -- Of the world, a SQLite call and a reading of the clock change the tick alone.
  pub sqlite_world : (w : World) → (sqlite env w).1 ≡ record w { ticks = suc w.ticks }
  unfolding sqlite
  sqlite_world w = ground arith

  pub now_world : (w : World) → (now env w).1 ≡ record w { ticks = suc w.ticks }
  unfolding now
  now_world w = ground arith

  pub sqlite-Idle : Within (Idle env) (sqlite env)
  sqlite-Idle = record {
    at = λ w. rw sqlite_world (record { drift = here; later = omega arith; quiet = refl });
  }

  pub now-Idle : Within (Idle env) (now env)
  now-Idle = record {
    at = λ w. rw now_world (record { drift = here; later = omega arith; quiet = refl });
  }

  pub stamp-Idle : Within (Idle env) (stamp env)
  unfolding stamp
  stamp-Idle = record { at = λ w. record { drift = here; later = omega arith; quiet = refl } }

  pub tick-Idle : Within (Idle env) tick
  tick-Idle = record { at = λ w. record { drift = here; later = omega arith; quiet = refl } }

  pub catch_up-Idle : (w : World) → Idle env w (catch_up env w)
  unfolding catch_up
  catch_up-Idle w = record { drift = commit w.ticks here; later = omega arith; quiet = refl }

  pub read-Idle : {A : Type 0} (m : Exec A) → Within (Idle env) m → Within (Idle env) (read env m)
  unfolding read
  read-Idle m km = Within-bind (Idle-preorder env) (sqlite env) _ sqlite-Idle (λ _. record {
    at = λ w.
        (Idle-preorder env).chain w (catch_up env w) _ (catch_up-Idle w) (km.at (catch_up env w));
  })
