-- ===== src/World/Steps.antt =====
-- What a call that returned has gone through.
use ops_guard.Prelude.{
  Bool, true, false, ◌≡◌, refl, sym, arith, ap, subst, ◌∙◌, if◌then◌else◌, ◌⊎◌, inl, inr,
}
use ops_guard.Errors.{Error, Result, ok, err}
use ops_guard.Env.{Env}
use ops_guard.World.Within.{Within, sqlite_world, now_world}
use ops_guard.World.{World, Exec, lift, continue, ◌>>=◌, sqlite, now}

continue-ok :
    {A B : Type 0} (r : Result A) (f : A → Exec B) (w : World) {b : B} {w' : World}
    → continue r f w ≡ (ok b, w')
    → (a : A) × (r ≡ ok a) × (f a w ≡ (ok b, w'))
continue-ok (ok a) f w h = (a, refl, h)
continue-ok (err e) f w h = absurd (ground arith)

-- A chain returned, so each of its parts did: the rest goes on from the values and worlds between.
pub bind-ok :
    {A B C : Type 0} (m : Exec A) (f : A → Exec B) (w : World) {b : B} {w' : World}
    → (m >>= f) w ≡ (ok b, w')
    → ((a : A) (w1 : World) → m w ≡ (ok a, w1) → f a w1 ≡ (ok b, w') → C)
    → C
unfolding ◌>>=◌
bind-ok m f w h k =
    let (a, p, q) = continue-ok (m w).0 f (m w).1 h in k a (m w).1 (ap (λ r. (r, (m w).1)) p) q

pub lift-ok :
    {A : Type 0} (r : Result A) (w : World) {a : A} {w' : World}
    → lift r w ≡ (ok a, w')
    → (r ≡ ok a) × (w' ≡ w)
lift-ok r w h = (ap (λ x. x.0) h, sym (ap (λ x. x.1) h))

pub if-ok :
    {A : Type 0} (b : Bool) (m n : Exec A) (w : World) {r : Result A × World}
    → (if b then m else n) w ≡ r
    → (b ≡ true) × (m w ≡ r) ⊎ (b ≡ false) × (n w ≡ r)
if-ok true m n w h = inl (refl, h)
if-ok false m n w h = inr (refl, h)

-- The world after a call that returned
pub after-ok :
    {A : Type 0} (R : World → World → Type 0) (m : Exec A) (w : World) {a : A} {w' : World}
    → Within R m
    → m w ≡ (ok a, w')
    → R w w'
after-ok R m w k h = subst (R w) (ap (λ r. r.1) h) (k.at w)

-- The world after a call that raised
pub after-err :
    {A : Type 0} (R : World → World → Type 0) (m : Exec A) (w : World) {e : Error} {w' : World}
    → Within R m
    → m w ≡ (err e, w')
    → R w w'
after-err R m w k h = subst (R w) (ap (λ r. r.1) h) (k.at w)

pub ok-injective : {A : Type 0} {a b : A} → ok a ≡ ok b → a ≡ b
ok-injective h = ground arith

-- The call leaves the database alone.
abbrev pub SameDb : World → World → Type 0
SameDb w w' = w'.db ≡ w.db

pub sqlite-SameDb : (env : Env) → Within SameDb (sqlite env)
sqlite-SameDb env = record { at = λ w. ap (λ v. v.db) (sqlite_world env w) }

pub now-SameDb : (env : Env) → Within SameDb (now env)
now-SameDb env = record { at = λ w. ap (λ v. v.db) (now_world env w) }

pub ok-ne-err :
    {A : Type 0} {a : A} {e : Error} {v w : World}
    → ◌≡◌ {A = Result A × World} (ok a, v) (err e, w)
    → ⊥
ok-ne-err h = ground arith

raised :
    {A B : Type 0} (x : Error) (v : World) {e : Error} {w' : World}
    → ◌≡◌ {A = Result B × World} (err x, v) (err e, w')
    → ◌≡◌ {A = Result A × World} (err x, v) (err e, w')
raised x v h = ground arith

-- A chain raised: its first call did, or what came after it.
pub bind-err :
    {A B C : Type 0} (m : Exec A) (f : A → Exec B) (w : World) {e : Error} {w' : World}
    → (m >>= f) w ≡ (err e, w')
    → (m w ≡ (err e, w') → C)
    → ((a : A) (w1 : World) → m w ≡ (ok a, w1) → f a w1 ≡ (err e, w') → C)
    → C
unfolding ◌>>=◌
bind-err {A} {B} {C} m f w {e} {w'} h k l = split (m w).0 refl h
  where
    split : (r : Result A) → (m w).0 ≡ r → continue r f (m w).1 ≡ (err e, w') → C
    split (ok a) is go = l a (m w).1 (ap (λ r. (r, (m w).1)) is) go
    split (err x) is go = k (ap (λ r. (r, (m w).1)) is ∙ raised x (m w).1 go)
