-- ===== src/Prelude/Members.antt =====
-- Members of lists, and what a prefix of a list has.
use mathlib.Core.List.{List, [], ◌∷◌, ◌++◌, Memᴰ}
use mathlib.Core.Logic.{◌⊎◌, inl, inr}
use native.Mathlib.Omega.{arith}
use Prim.Native.Nat.{ℕ, zero, suc, ◌≤◌}
use package.ops_guard.Prelude.Lists.{length, take, find}
use package.ops_guard.Prelude.Tests.{Bool-cases}
use mathlib.Core.Path.{◌≡◌, refl, subst}
use mathlib.Core.Bool.{Bool, true}
use mathlib.Core.Option.{some}

module _ {ℓ} {A : Type ℓ} where
  pub widen : {x y z : A} {l : List A} → Memᴰ y (x ∷ l) → Memᴰ y (x ∷ z ∷ l)
  widen (Memᴰ.head e) = Memᴰ.head e
  widen (Memᴰ.tail m) = Memᴰ.tail (Memᴰ.tail m)

  pub exchange : {x y z : A} {l : List A} → Memᴰ y (z ∷ x ∷ l) → Memᴰ y (x ∷ z ∷ l)
  exchange (Memᴰ.head e) = Memᴰ.tail (Memᴰ.head e)
  exchange (Memᴰ.tail m) = widen m

  pub below : {y z : A} {l m : List A} → (Memᴰ y l → Memᴰ y m) → Memᴰ y (z ∷ l) → Memᴰ y (z ∷ m)
  below f (Memᴰ.head e) = Memᴰ.head e
  below f (Memᴰ.tail m) = Memᴰ.tail (f m)

  pub mem-left : {y : A} {l : List A} (m : List A) → Memᴰ y l → Memᴰ y (l ++ m)
  mem-left m (Memᴰ.head e) = Memᴰ.head e
  mem-left m (Memᴰ.tail t) = Memᴰ.tail (mem-left m t)

  pub mem-right : {y : A} (l : List A) {m : List A} → Memᴰ y m → Memᴰ y (l ++ m)
  mem-right [] t = t
  mem-right (x ∷ l) t = Memᴰ.tail (mem-right l t)

  pub mem-split : {y : A} (l : List A) {m : List A} → Memᴰ y (l ++ m) → Memᴰ y l ⊎ Memᴰ y m
  mem-split [] t = inr t
  mem-split (x ∷ l) (Memᴰ.head e) = inl (Memᴰ.head e)
  mem-split (x ∷ l) (Memᴰ.tail t) = elim (mem-split l t) [
    | inl a ↦ inl (Memᴰ.tail a)
    | inr a ↦ inr a
  ]

  pub take-mem : {y : A} (n : ℕ) (l : List A) → Memᴰ y (take n l) → Memᴰ y l
  unfolding take
  take-mem zero l t = elim t [ ]
  take-mem (suc n) [] t = elim t [ ]
  take-mem (suc n) (x ∷ l) (Memᴰ.head e) = Memᴰ.head e
  take-mem (suc n) (x ∷ l) (Memᴰ.tail t) = Memᴰ.tail (take-mem n l t)

  pub length-take : (n : ℕ) (l : List A) → length (take n l) ≤ n
  unfolding take
  length-take zero l = omega arith
  length-take (suc n) [] = omega arith
  length-take (suc n) (x ∷ l) = omega (arith, length-take n l)

  -- A search that some member passes finds a member that passes.
  pub find-mem :
      (p : A → Bool) (l : List A) (x : A)
      → Memᴰ x l
      → p x ≡ true
      → (y : A) × (find p l ≡ some y) × Memᴰ y l × (p y ≡ true)
  unfolding find
  find-mem p [] x m h = elim m [ ]
  find-mem p (z ∷ l) x (Memᴰ.head e) h =
      let passes : p z ≡ true = subst (λ w. p w ≡ true) e h in
      (z, rw passes refl, Memᴰ.head refl, passes)
  find-mem p (z ∷ l) x (Memᴰ.tail m) h = elim (Bool-cases (p z)) [
    | inl passes ↦ (z, rw passes refl, Memᴰ.head refl, passes)
    | inr fails ↦
        let (y, found, n, passes) = find-mem p l x m h in (y, rw fails found, Memᴰ.tail n, passes)
  ]
