-- ===== src/World/Atomic.antt =====
-- store.py, `transaction`: all of it is committed, or none, unless its body ends it.
use ops_guard.Prelude.{
  suc, Option, none, some, ◌≡◌, ◌⊎◌, inl, inr, refl, sym, ◌∙◌, arith, ap, subst,
}
use ops_guard.Errors.{Error, Result, ok, err}
use ops_guard.Store.{Db}
use ops_guard.Env.{Env}
use ops_guard.World.{World, Exec, continue, sqlite, ◌>>=◌, catch_up, opened, transaction, read}
use ops_guard.World.Within.{Drifts, here, commit, sqlite_world}
use ops_guard.World.Steps.{bind-ok}
use package.ops_guard.World.{commit_or_close, roll_back, settle}

some-injective : {A : Type 0} {a b : A} → some a ≡ some b → a ≡ b
some-injective h = ground arith

module _ (env : Env) where
  -- The world that a connection opened by `w` sees: what the other processes have committed by then
  -- is there.
  abbrev pub looked : World → World
  looked w = catch_up env (record w { ticks = suc w.ticks })

  -- The world in which the body of a transaction that `w` begins runs: `BEGIN` waits for the lock.
  abbrev pub begun : World → World
  begun w = opened (looked w)

  pub begun-Drifts : (w : World) → Drifts env w.db (begun w).db
  unfolding catch_up
  begun-Drifts w = commit (suc w.ticks) here

  commit-undo :
      {A : Type 0} (a : A) (began : Option Db) (w : World) {e : Error} {w' : World}
      → commit_or_close env a began w ≡ (err e, w')
      → ((before : Db) × (began ≡ some before) × (w'.db ≡ before)) ⊎ (began ≡ none) × (w'.db ≡ w.db)
  unfolding commit_or_close
  commit-undo a none w h = inr (refl, sym (ap (λ x. x.1.db) h))
  commit-undo a (some before) w h = inl (before, refl, ground arith)

  roll_back-undo :
      {A : Type 0} (x : Error) (began : Option Db) (w : World) {e : Error} {w' : World}
      → roll_back env {A = A} x began w ≡ (err e, w')
      → ((before : Db) × (began ≡ some before) × (w'.db ≡ before)) ⊎ (began ≡ none) × (w'.db ≡ w.db)
  unfolding roll_back
  roll_back-undo x none w h = inr (refl, sym (ap (λ x. x.1.db) h))
  roll_back-undo x (some before) w h = inl (before, refl, sym (ap (λ x. x.1.db) h))

  settle-undo :
      {A : Type 0} (r : Result A) (w : World) {e : Error} {w' : World}
      → settle env (r, w) ≡ (err e, w')
      → ((before : Db) × (w.began ≡ some before) × (w'.db ≡ before))
        ⊎ (w.began ≡ none) × (w'.db ≡ w.db)
  unfolding settle
  settle-undo (ok a) w h = commit-undo a w.began w h
  settle-undo (err e) w h = roll_back-undo e w.began w h

  commit-done :
      {A : Type 0} (x : A) (began : Option Db) (w : World) {a : A} {w' : World}
      → commit_or_close env x began w ≡ (ok a, w')
      → (x ≡ a) × (w'.db ≡ w.db)
  unfolding commit_or_close
  commit-done x none w h = absurd (ground arith)
  commit-done x (some before) w h = ground arith

  roll_back-raises :
      {A B : Type 0} (x : Error) (began : Option Db) (w : World) {a : A} {w' : World}
      → roll_back env {A = A} x began w ≡ (ok a, w')
      → B
  unfolding roll_back
  roll_back-raises x none w h = absurd (ground arith)
  roll_back-raises x (some before) w h = absurd (ground arith)

  settle-done :
      {A : Type 0} (r : Result A) (w : World) {a : A} {w' : World}
      → settle env (r, w) ≡ (ok a, w')
      → (r ≡ ok a) × (w'.db ≡ w.db)
  unfolding settle
  settle-done (ok x) w h = let (p, q) = commit-done x w.began w h in (ap ok p, q)
  settle-done (err e) w h = roll_back-raises e w.began w h

  module _ {A : Type 0} (body : Exec A) where
    -- The rest of a transaction, after the call that begins it
    abbrev rest : Unit {0} → Exec A
    rest _ w = settle env (body (opened (catch_up env w)))

    continue-undo :
        (r : Result (Unit {0})) (w : World) {e : Error} {w' : World}
        → continue r rest w ≡ (err e, w')
        → (w'.db ≡ w.db)
          ⊎ ((before : Db) × ((body (opened (catch_up env w))).1.began ≡ some before)
              × (w'.db ≡ before))
          ⊎ ((body (opened (catch_up env w))).1.began ≡ none)
            × (w'.db ≡ (body (opened (catch_up env w))).1.db)
    continue-undo (ok _) w h =
        let left = body (opened (catch_up env w)) in inr (settle-undo left.0 left.1 h)
    continue-undo (err e) w h = inl (sym (ap (λ x. x.1.db) h))

    continue-done :
        (r : Result (Unit {0})) (w : World) {a : A} {w' : World}
        → continue r rest w ≡ (ok a, w')
        → (w1 : World) × (body (opened (catch_up env w)) ≡ (ok a, w1)) × (w'.db ≡ w1.db)
    continue-done (ok _) w h =
        let left = body (opened (catch_up env w)) in
        let (p, q) = settle-done left.0 left.1 h in (left.1, ap (λ r. (r, left.1)) p, q)
    continue-done (err e) w h = absurd (ground arith)

    transaction-left :
        (w : World) {e : Error} {w' : World}
        → transaction env body w ≡ (err e, w')
        → ((w'.db ≡ w.db)
            ⊎ ((before : Db) × ((body (begun w)).1.began ≡ some before) × (w'.db ≡ before))
            ⊎ ((body (begun w)).1.began ≡ none) × (w'.db ≡ (body (begun w)).1.db))
    unfolding transaction ◌>>=◌
    transaction-left w {w'} h =
        subst
          (λ v.
            (w'.db ≡ v.db)
            ⊎ ((before : Db) × ((body (opened (catch_up env v))).1.began ≡ some before)
                × (w'.db ≡ before))
            ⊎ ((body (opened (catch_up env v))).1.began ≡ none)
              × (w'.db ≡ (body (opened (catch_up env v))).1.db))
          (sqlite_world env w) (continue-undo (sqlite env w).0 (sqlite env w).1 h)

    -- A transaction that raises, at its beginning, in its body or at its commit, has written nothing,
    -- provided that its body has left it open: the database after it is the one before, but for what
    -- other processes had committed when it got the lock.
    pub transaction-undo :
        (w : World) {e : Error} {w' : World}
        → (body (begun w)).1.began ≡ some (begun w).db
        → transaction env body w ≡ (err e, w')
        → Drifts env w.db w'.db
    transaction-undo w {e} {w'} unended h = elim (transaction-left w h) [
      | inl same ↦ subst (Drifts env w.db) (sym same) here
      | inr (inl (before, began, left)) ↦
          let is : before ≡ (begun w).db = some-injective (sym began ∙ unended) in
          subst (Drifts env w.db) (sym (left ∙ is)) (begun-Drifts w)
      | inr (inr (ended, left)) ↦ absurd (ground arith)
    ]

    -- A transaction that returns has committed what its body did.
    pub transaction-done :
        (w : World) {a : A} {w' : World}
        → transaction env body w ≡ (ok a, w')
        → (w1 : World) × (body (begun w) ≡ (ok a, w1)) × (w'.db ≡ w1.db)
    unfolding transaction ◌>>=◌
    transaction-done w {a} {w'} h =
        subst (λ v. (w1 : World) × (body (opened (catch_up env v)) ≡ (ok a, w1)) × (w'.db ≡ w1.db))
          (sqlite_world env w) (continue-done (sqlite env w).0 (sqlite env w).1 h)

-- A read that returned ran its body on what it had caught up with.
pub read-done :
    (env : Env) {A : Type 0} (m : Exec A) (w : World) {a : A} {w' : World}
    → read env m w ≡ (ok a, w')
    → m (looked env w) ≡ (ok a, w')
unfolding read
read-done env m w {a} {w'} h = bind-ok (sqlite env) _ w h λ _ w1 p q.
    subst (λ v. m (catch_up env v) ≡ (ok a, w')) (sym (ap (λ x. x.1) p) ∙ sqlite_world env w) q
