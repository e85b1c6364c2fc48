-- ===== src/Gate/Stage/Passed.antt =====
-- What a check that passed has gone through.
use ops_guard.Prelude.{
  Bool, true, false, Option, ◌≡◌, refl, arith, ap, subst, ◌⊎◌, inl, inr, if◌then◌else◌,
}
use ops_guard.Errors.{Error, Result, ok, err}
use ops_guard.World.{World, Exec}
use ops_guard.World.Within.{Within}
use ops_guard.Gate.Stage.{
  Refusal, Verdict, passed, refused, escaped, Stage, pass, require, onward, ◌>>=◌, attempt, handle,
}

onward-passed :
    {A B : Type 0} (v : Verdict A) (f : A → Stage B) (w : World) {b : B} {w' : World}
    → onward v f w ≡ (passed b, w')
    → (a : A) × (v ≡ passed a) × (f a w ≡ (passed b, w'))
onward-passed (passed a) f w h = (a, refl, h)
onward-passed (refused r) f w h = absurd (ground arith)
onward-passed (escaped e) f w h = absurd (ground arith)

module _ {A B : Type 0} where
  -- A chain passed, so each of its parts did.
  pub bind-passed :
      (m : Stage A) (f : A → Stage B) (w : World) {b : B} {w' : World}
      → (m >>= f) w ≡ (passed b, w')
      → (a : A) × (m w ≡ (passed a, (m w).1)) × (f a (m w).1 ≡ (passed b, w'))
  unfolding ◌>>=◌
  bind-passed m f w h =
      let (a, p, q) = onward-passed (m w).0 f (m w).1 h in (a, ap (λ v. (v, (m w).1)) p, q)

pub require-passed :
    (b : Bool) (r : Refusal) (w : World) {u : Unit {0}} {w' : World}
    → require b r w ≡ (passed u, w')
    → (b ≡ true) × (w' ≡ w)
require-passed b r w h = ground arith

handle-passed :
    {A : Type 0} (h : Error → Option Refusal) (r : Result A) {a : A}
    → handle h r ≡ passed a
    → r ≡ ok a
handle-passed h (ok a) e = ground arith
handle-passed h (err x) e = ground arith

pub attempt-passed :
    {A : Type 0} (m : Exec A) (h : Error → Option Refusal) (w : World) {a : A} {w' : World}
    → attempt m h w ≡ (passed a, w')
    → m w ≡ (ok a, w')
attempt-passed m h w e =
    let p = handle-passed h (m w).0 (ap (λ v. v.0) e) in let q = ap (λ v. v.1) e in λ i. (p i, q i)

pub if-passed :
    {A : Type 0} (b : Bool) (m n : Stage A) (w : World) {a : A} {w' : World}
    → (if b then m else n) w ≡ (passed a, w')
    → (m w ≡ (passed a, w')) ⊎ (n w ≡ (passed a, w'))
if-passed true m n w h = inl h
if-passed false m n w h = inr h

-- The same, for a proof that goes on from the values and worlds in between.
pub bind-then :
    {A B C : Type 0} (m : Stage A) (f : A → Stage B) (w : World) {b : B} {w' : World}
    → (m >>= f) w ≡ (passed b, w')
    → ((a : A) (w1 : World) → m w ≡ (passed a, w1) → f a w1 ≡ (passed b, w') → C)
    → C
bind-then m f w h k = let (a, p, q) = bind-passed m f w h in k a (m w).1 p q

pub pass-passed : {A : Type 0} (a b : A) (w w' : World) → pass a w ≡ (passed b, w') → a ≡ b
pass-passed a b w w' h = ground arith

-- The world after a check that passed
pub after-passed :
    {A : Type 0} (R : World → World → Type 0) (m : Stage A) (w : World) {a : A} {w' : World}
    → Within R m
    → m w ≡ (passed a, w')
    → R w w'
after-passed R m w k h = subst (R w) (ap (λ r. r.1) h) (k.at w)
