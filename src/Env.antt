-- ===== src/Env.antt =====
-- What the program does not implement: hashing, canonical JSON (the `jcs` package), `json.loads`,
-- clocks, random identifiers, the other processes on the database, and storage faults. All of it
-- is a parameter, and the theorems hold for every choice unless they name a hypothesis.
use ops_guard.Prelude.{ℕ, ℤ, String, Bool, Option, none, some, ◌==◌}
use ops_guard.Json.{Json, Fields}
use ops_guard.Errors.{Result, ok, err, value_error}
use ops_guard.Store.{Db}

-- A reading of the injected clock, with its instant: a naive datetime, which stands for one in the
-- local zone, or an aware one.
pub data Moment : Type 0 where
  naive : ℕ → Moment
  aware : ℕ → Moment

-- How a wait for the child ended.
pub data Wait : Type 0 where
  exited : ℤ → Wait
  expired wait_error : Wait

-- What the operating system did for one staged execution.
pub record Host : Type 0 where
  -- the bytes of the profile's executable, or an OSError
  pub executable : Option String
  -- creating, writing or protecting the staged file raises OSError
  pub staging_fails : Bool
  -- the staged file, read back
  pub staged : String
  -- `Popen` raises OSError
  pub spawn_fails : Bool
  -- on Windows, the job object could not be armed
  pub arming_fails : Bool
  pub wait : Wait
  -- the writer or a reader thread is alive after its join
  pub still_open : Bool
  pub stdout_overflow : Bool
  pub stderr_overflow : Bool

-- What an observer's worker thread has done when the join returns.
pub data Response : Type 0 where
  -- returned, with a value that is a string or is not
  returned : Option String → Response
  failed : Response
  still_running : Response

-- The state of an owner's lock file, when it is tried.
pub data Lock : Type 0 where
  absent unopenable held free : Lock

-- What an injected executor did.
pub data Report : Type 0 where
  reported : String → Report
  timed_out : Report
  crashed : String → Report

pub record Env : Type 0 where
  -- `jcs.canonicalize`; `none` when it raises
  pub canonicalize : Json → Option String
  -- `json.loads`; `none` when it raises
  pub loads : String → Option Json
  -- `hashlib.sha256(…).hexdigest()`
  pub sha256 : String → String
  -- `hmac.new(key, message, hashlib.sha256).hexdigest()`
  pub hmac_sha256 : String → String → String
  -- `format_timestamp`, where a text is needed
  pub format_timestamp : ℕ → String
  -- `datetime.fromisoformat`; `none` when it raises
  pub fromisoformat : String → Option Moment
  -- `os.path.isabs`, which depends on the platform
  pub isabs : String → Bool
  pub token_key : String
  pub fingerprint_key : String
  -- Each use of the environment is a tick; what it gives may differ at every tick.
  pub moment : ℕ → Moment
  pub monotonic : ℕ → ℕ
  pub uuid : ℕ → String
  pub token_urlsafe : ℕ → String
  -- What other processes commit while this one does not hold the write lock
  pub others : ℕ → Db → Db
  -- Staged executions, observers by id and settings, and injected executors
  pub host : ℕ → Host
  pub observer : ℕ → String → Fields → ℕ → Response
  pub executor : ℕ → Report
  -- The lock file of an execution owner
  pub lock : ℕ → String → Lock
  -- The operator's script source: the bytes of a path, or an exception
  pub script_source : ℕ → String → Option String
  -- Whether the SQLite call made at this tick raises
  pub fault : ℕ → Bool

-- `canonicalize_json` of invocation.py
unfoldable pub canonicalize_json : Env → Json → Result String
canonicalize_json env value = elim (env.canonicalize value) [
  | none ↦ err (value_error "not canonicalizable")
  | some text ↦ ok text
]

-- `digest_bytes(canonicalize_json(value))`, the form of every document digest
unfoldable pub document_digest : Env → Json → Result String
document_digest env value = elim (env.canonicalize value) [
  | none ↦ err (value_error "not canonicalizable")
  | some text ↦ ok (env.sha256 text)
]

-- `json.loads`
unfoldable pub loads_json : Env → String → Result Json
loads_json env text = elim (env.loads text) [
  | none ↦ err (value_error "not JSON")
  | some value ↦ ok value
]

-- `hmac_eq`, `hmac.compare_digest`
abbrev pub hmac_eq : String → String → Bool
hmac_eq left right = left == right
