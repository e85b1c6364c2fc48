-- ===== src/Runbooks/Parse.antt =====
-- runbooks.py: `parse_revision`, which checks a stored document and recomputes its content hash.
pub mod Passages
pub mod Required
pub mod Verified
use ops_guard.Prelude.{
  ℕ, String, Bool, true, false, not, Option, none, some, List, [], ◌∷◌, ◌==◌, ◌⊕◌, if◌then◌else◌,
}
use ops_guard.Json.{Json, Items, Fields, nil, cons, obj, lookup, has_key, keys_are, is_one_of}
use ops_guard.Json.Read.{non_blank, non_empty, as_list, as_mapping, require, without}
use ops_guard.Text.{is_hex64}
use ops_guard.Errors.{
  Error, Result, ok, err, ◌>>=◌, ◌>>◌, check, malformed_runbook, unverified_runbook,
  tampered_runbook,
}
use ops_guard.Env.{Env, Moment, naive, aware, document_digest}
use ops_guard.Authorization.{Precondition}
use package.ops_guard.Runbooks.{Passage, Verification, RunbookRevision}

-- `_require_str`
unfoldable pub require_str : Fields → String → Result String
require_str document key =
    require (non_blank (lookup key document))
      (malformed_runbook (key ⊕ " must be a non-blank string"))

-- `_require_str_in`
unfoldable pub require_str_in : Fields → String → String → Result String
require_str_in mapping key place =
    require (non_blank (lookup key mapping))
      (malformed_runbook (place ⊕ "." ⊕ key ⊕ " must be a non-blank string"))

abbrev passage_shape : Error
passage_shape = malformed_runbook "each passage must have exactly locator and text"

-- One round of the loop of `_parse_passages`, with the locators seen
unfoldable pub parse_passage : Json → List String → Result Passage
unfolding require_str_in
parse_passage raw seen = do
  item ← require (as_mapping (some raw)) passage_shape
  check (keys_are ("locator" ∷ "text" ∷ []) item) passage_shape
  locator ← require_str_in item "locator" "passage"
  text ← require_str_in item "text" "passage"
  check (not (is_one_of seen locator)) (malformed_runbook ("duplicate passage locator " ⊕ locator))
  ok (record { locator = locator; text = text })

unfoldable pub parse_passage_list : Items → List String → Result (List Passage)
unfolding parse_passage
parse_passage_list nil seen = ok []
parse_passage_list (cons raw rest) seen = do
  passage ← parse_passage raw seen
  passages ← parse_passage_list rest (passage.locator ∷ seen)
  ok (passage ∷ passages)

abbrev passages_shape : Error
passages_shape = malformed_runbook "passages must be a non-empty list"

-- `_parse_passages`
unfoldable pub parse_passages : Option Json → Result (List Passage)
unfolding parse_passage_list
parse_passages raw = do
  list ← require (as_list raw) passages_shape
  elim list [ nil ↦ err passages_shape | cons first rest ↦ parse_passage_list (cons first rest) [] ]

abbrev precondition_shape : Error
precondition_shape = malformed_runbook "each precondition must have exactly name and expected"

unfoldable pub parse_precondition : Json → Result Precondition
unfolding require_str_in
parse_precondition raw = do
  item ← require (as_mapping (some raw)) precondition_shape
  check (keys_are ("name" ∷ "expected" ∷ []) item) precondition_shape
  name ← require_str_in item "name" "precondition"
  expected ← require_str_in item "expected" "precondition"
  ok (record { name = name; expected = expected })

unfoldable pub parse_precondition_list : Items → Result (List Precondition)
unfolding parse_precondition
parse_precondition_list nil = ok []
parse_precondition_list (cons raw rest) = do
  precondition ← parse_precondition raw
  preconditions ← parse_precondition_list rest
  ok (precondition ∷ preconditions)

-- `_parse_preconditions`
unfoldable pub parse_preconditions : Option Json → Result (List Precondition)
unfolding parse_precondition_list
parse_preconditions raw = do
  list ← require (as_list raw) (malformed_runbook "preconditions must be a list")
  parse_precondition_list list

abbrev verification_shape : Error
verification_shape =
    unverified_runbook "verification must have exactly verifier, verified_at, applicability"

-- `verified_string`
unfoldable pub verified_string : Fields → String → Result String
verified_string raw key =
    require (non_blank (lookup key raw))
      (unverified_runbook ("verification." ⊕ key ⊕ " must be a non-blank string"))

-- `_aware`, of a parsed timestamp
unfoldable pub aware_moment : Option Moment → Result ℕ
aware_moment none = err (unverified_runbook "verification.verified_at is not an ISO timestamp")
aware_moment (some (naive instant)) = err (unverified_runbook "verified_at must be timezone-aware")
aware_moment (some (aware instant)) = ok instant

-- `_parse_verification`
unfoldable pub parse_verification : Env → Option Json → Result Verification
unfolding verified_string aware_moment
parse_verification env raw = do
  document ← require (as_mapping raw) verification_shape
  check (keys_are ("verifier" ∷ "verified_at" ∷ "applicability" ∷ []) document) verification_shape
  verifier ← verified_string document "verifier"
  applicability ← verified_string document "applicability"
  raw_when ←
      require (non_empty (lookup "verified_at" document))
        (unverified_runbook "verification.verified_at must be a non-empty string")
  moment ← aware_moment (env.fromisoformat raw_when)
  ok (record { verifier = verifier; verified_at = moment; applicability = applicability })

abbrev pub revision_keys : List String
revision_keys =
    "runbook_id" ∷ "revision" ∷ "operation" ∷ "preconditions" ∷ "passages" ∷ "verification"
    ∷ "content_hash" ∷ []

-- Why the keys are refused
unfoldable pub wrong_keys : Fields → Error
wrong_keys document =
    if has_key "verification" document
    then malformed_runbook "revision keys do not match the canonical shape"
    else unverified_runbook "revision carries no verification metadata; it can never qualify"

abbrev operation_shape : Error
operation_shape = malformed_runbook "operation must have exactly action and target"

-- The revision that a document with an operation and a hash describes
unfoldable pub read_revision : Env → Fields → Fields → String → Result RunbookRevision
unfolding require_str require_str_in parse_preconditions parse_passages parse_verification
read_revision env document operation content_hash = do
  runbook_id ← require_str document "runbook_id"
  revision ← require_str document "revision"
  action ← require_str_in operation "action" "operation"
  target ← require_str_in operation "target" "operation"
  preconditions ← parse_preconditions (lookup "preconditions" document)
  passages ← parse_passages (lookup "passages" document)
  verification ← parse_verification env (lookup "verification" document)
  ok (record {
    runbook_id = runbook_id;
    revision = revision;
    operation_action = action;
    operation_target = target;
    preconditions = preconditions;
    passages = passages;
    verification = verification;
    content_hash = content_hash;
    body = obj (without "content_hash" document);
  })

-- `parse_revision`
unfoldable pub parse_revision : Env → Json → Result RunbookRevision
unfolding wrong_keys require_str read_revision
parse_revision env raw = do
  document ← require (as_mapping (some raw)) (malformed_runbook "revision must be a JSON object")
  check (keys_are revision_keys document) (wrong_keys document)
  operation ← require (as_mapping (lookup "operation" document)) operation_shape
  check (keys_are ("action" ∷ "target" ∷ []) operation) operation_shape
  content_hash ← require_str document "content_hash"
  check (is_hex64 content_hash) (malformed_runbook "content_hash must be 64 hexadecimal characters")
  revision ← read_revision env document operation content_hash
  expected ← document_digest env revision.body
  check (expected == content_hash)
      (tampered_runbook "content hash does not match the revision body")
  ok revision
