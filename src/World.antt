-- ===== src/World.antt =====
-- The state that a call runs in, its exceptions, and transactions (store.py, audit.py).
--
-- A call is a function from the world to its result and the world that it leaves. What was
-- written before an exception stays written, except that `transaction` rolls the database back,
-- unless its body has ended the transaction itself.
pub mod Within
pub mod Quiet
pub mod Runs
pub mod Steps
pub mod Atomic
pub mod Unended
use ops_guard.Prelude.{ℕ, suc, String, Bool, Option, none, some, List, ◌∷◌, ◌⊕◌, if◌then◌else◌}
use ops_guard.Errors.{Error, Result, ok, err, value_error, sqlite_error, other_error}
use ops_guard.Store.{Db}
use ops_guard.Invocation.{Invocation}
use ops_guard.Env.{Env, Moment, naive, aware}

-- One run of a script or an injected executor: the side effect that the gate guards.
pub record Dispatch : Type 0 where
  pub script_path : String
  pub script_bytes : String
  pub invocation : Invocation

-- `began` is the database at the start of the open transaction, if one is open: the state that a
-- `ROLLBACK` returns to. A body that ends its transaction itself leaves none.
pub record World : Type 0 where
  pub db : Db
  pub began : Option Db
  pub ticks : ℕ
  pub ran : List Dispatch

abbrev pub Exec : Type 0 → Type 0
Exec A = World → Result A × World

abbrev pub pure : {A : Type 0} → A → Exec A
pure a w = (ok a, w)

abbrev pub raise : {A : Type 0} → Error → Exec A
raise e w = (err e, w)

abbrev pub lift : {A : Type 0} → Result A → Exec A
lift r w = (r, w)

-- What follows a result: the continuation, or the exception that passes by.
abbrev pub continue : {A B : Type 0} → Result A → (A → Exec B) → Exec B
continue (ok a) f w = f a w
continue (err e) f w = (err e, w)

infixl 10 ◌>>=◌ ◌>>◌
unfoldable pub ◌>>=◌ : {A B : Type 0} → Exec A → (A → Exec B) → Exec B
◌>>=◌ m f w = let (r, w') = m w in continue r f w'

abbrev pub ◌>>◌ : {B : Type 0} → Exec (Unit {0}) → Exec B → Exec B
m >> k = m >>= λ _. k

abbrev pub gets : {A : Type 0} → (Db → A) → Exec A
gets f w = (ok (f w.db), w)

abbrev pub modify : (Db → Db) → Exec (Unit {0})
modify f w = (ok tt, record w { db = f w.db })

-- The script runs: nothing takes this back.
abbrev pub run_script : Dispatch → Exec (Unit {0})
run_script d w = (ok tt, record w { ran = d ∷ w.ran })

-- A use of the environment gets a number of its own.
abbrev pub tick : Exec ℕ
tick w = (ok w.ticks, record w { ticks = suc w.ticks })

-- The world after `BEGIN IMMEDIATE`
abbrev pub opened : World → World
opened w = record w { began = some w.db }

module _ (env : Env) where
  -- A SQLite call, which may raise.
  unfoldable pub sqlite : Exec (Unit {0})
  sqlite w =
      if env.fault w.ticks
      then (err (sqlite_error "storage failure"), record w { ticks = suc w.ticks })
      else (ok tt, record w { ticks = suc w.ticks })

  -- `_now`: a reading of the clock, which must be timezone-aware.
  unfoldable pub now : Exec ℕ
  now w = elim (env.moment w.ticks) [
    | naive _ ↦ (
      err (value_error "clock must return timezone-aware datetimes"),
      record w { ticks = suc w.ticks },
    )
    | aware t ↦ (ok t, record w { ticks = suc w.ticks })
  ]

  -- `uuid.uuid4().hex`
  unfoldable pub new_uuid : Exec String
  new_uuid w = (ok (env.uuid w.ticks), record w { ticks = suc w.ticks })

  -- What the other processes have committed by the time this one gets the connection.
  unfoldable pub catch_up : World → World
  catch_up w = record w { db = env.others w.ticks w.db; ticks = suc w.ticks }

  -- `COMMIT`; when it raises, closing the connection rolls back.
  commit_or_close : {A : Type 0} → A → Option Db → Exec A
  commit_or_close a none =
      raise (other_error "unit of work was committed or rolled back inside the callback")
  commit_or_close a (some before) = λ w.
      if env.fault w.ticks
      then (
        err (sqlite_error "commit failed"),
        record w { db = before; began = none; ticks = suc w.ticks },
      )
      else (ok a, record w { began = none; ticks = suc w.ticks })

  -- `except BaseException`: `ROLLBACK`, and the error goes on.
  roll_back : {A : Type 0} → Error → Option Db → Exec A
  roll_back e none = raise (
      other_error (
        "unit of work was committed or rolled back inside the callback; "
        ⊕ "on-disk state must be inspected"))
  roll_back e (some before) = λ w. (err e, record w { db = before; began = none })

  -- The end of a transaction, whatever its body did.
  settle : {A : Type 0} → Result A × World → Result A × World
  unfolding commit_or_close roll_back
  settle (ok a, w) = commit_or_close a w.began w
  settle (err e, w) = roll_back e w.began w

  -- `transaction()` of the stores: `BEGIN IMMEDIATE` takes the write lock, so no other process
  -- writes until the end.
  unfoldable pub transaction : {A : Type 0} → Exec A → Exec A
  unfolding settle sqlite catch_up
  transaction body = sqlite >>= λ _ w. settle (body (opened (catch_up w)))

  -- `read()` of the stores: a connection without the write lock.
  unfoldable pub read : {A : Type 0} → Exec A → Exec A
  unfolding sqlite catch_up
  read body = sqlite >>= λ _ w. body (catch_up w)

  -- `format_timestamp(self._clock())`: a naive reading is taken in the local zone.
  unfoldable pub stamp : Exec String
  stamp w =
      let t : ℕ = elim (env.moment w.ticks) [ naive t ↦ t | aware t ↦ t ] in
      (ok (env.format_timestamp t), record w { ticks = suc w.ticks })
