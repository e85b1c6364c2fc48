-- ===== src/Runbooks/Load.antt =====
-- retrieval.py: `RunbookLibrary.load`, which serves the documents that verify and reports the rest.
pub mod Raises
pub mod Served
use ops_guard.Prelude.{ℕ, ◌+◌, Bool, true, false, ◌||◌, List, [], ◌∷◌, if◌then◌else◌}
use ops_guard.Json.{Json}
use ops_guard.Errors.{
  Error, Result, ok, err, ◌>>=◌, is_proposal_error, value_error, configuration_error, type_error,
  overflow_error,
}
use ops_guard.Env.{Env}
use package.ops_guard.Runbooks.{RunbookRevision, Library}
use package.ops_guard.Runbooks.Parse.{parse_revision}

-- `RetrievalRejection`; the error stands for its class and its message.
pub record Rejection : Type 0 where
  pub document_index : ℕ
  pub error : Error

abbrev is_value_error : Error → Bool
is_value_error (value_error _) = true
is_value_error (type_error _) = true
is_value_error (overflow_error _) = true
is_value_error _ = false

-- The exceptions that `load` catches
unfoldable pub is_excluded : Error → Bool
is_excluded error = is_proposal_error error || is_value_error error

-- What the loop has built: the revisions and the rejections
pub record Loaded : Type 0 where
  pub library : Library
  pub rejections : List Rejection

abbrev serve : RunbookRevision → Loaded → Loaded
serve r rest = record rest { library = r ∷ rest.library }

abbrev reject : ℕ → Error → Loaded → Loaded
reject index error rest = record rest {
  rejections = record { document_index = index; error = error } ∷ rest.rejections;
}

-- One round: what is done with the document, given what the later rounds build
abbrev one : ℕ → Result RunbookRevision → Result Loaded → Result Loaded
one index (ok r) rest = rest >>= λ loaded. ok (serve r loaded)
one index (err error) rest =
    if is_excluded error then (rest >>= λ loaded. ok (reject index error loaded)) else err error

-- The loop, from the document at an index on
unfoldable pub load_from : Env → ℕ → List Json → Result Loaded
load_from env index [] = ok (record { library = []; rejections = [] })
load_from env index (document ∷ documents) =
    one index (parse_revision env document) (load_from env (index + 1) documents)

-- `RunbookLibrary.load`
unfoldable pub load : Env → List Json → Result Loaded
unfolding load_from
load env documents = load_from env 0 documents
