-- ===== src/Runbooks.antt =====
-- runbooks.py and retrieval.py: verified revisions, and the resolution of a citation in the library.
pub mod Resolve
pub mod Parse
pub mod Document
pub mod Load
pub mod Search
use Prim.Native.String.{String}
use Prim.Native.Char.{code}
use ops_guard.Prelude.{
  ℕ, Bool, true, false, ◌&&◌, ◌||◌, not, Option, none, some, List, [], ◌∷◌, ◌==◌, ◌⊕◌,
  if◌then◌else◌, find, ltb,
}
use ops_guard.Json.{Json}
use ops_guard.Errors.{Error, Result, ok, err, malformed_runbook, unknown_passage, type_error}
use ops_guard.Authorization.{Precondition}

pub record Passage : Type 0 where
  pub locator : String
  pub text : String

pub record Verification : Type 0 where
  pub verifier : String
  pub verified_at : ℕ
  pub applicability : String

pub record RunbookRevision : Type 0 where
  pub runbook_id : String
  pub revision : String
  pub operation_action : String
  pub operation_target : String
  pub preconditions : List Precondition
  pub passages : List Passage
  pub verification : Verification
  pub content_hash : String
  pub body : Json

pub record Citation : Type 0 where
  pub runbook_id : String
  pub revision : String
  pub content_hash : String
  pub locator : String

pub record CitedPassage : Type 0 where
  pub citation : Citation
  pub passage : Passage
  pub operation_action : String
  pub operation_target : String
  pub preconditions : List Precondition
  pub verifier : String

-- `RunbookLibrary`: its verified revisions. They are immutable, so the copies that the code makes
-- of their preconditions are the preconditions.
abbrev pub Library : Type 0
Library = List RunbookRevision

-- The four citation fields are non-empty.
abbrev pub is_complete : Citation → Bool
is_complete c =
    not (c.runbook_id == "")
    && (not (c.revision == "") && (not (c.content_hash == "") && not (c.locator == "")))

unfoldable pub find_revision : String → Library → Option RunbookRevision
find_revision hash library = find (λ r. r.content_hash == hash) library

unfoldable pub find_passage : String → List Passage → Option Passage
find_passage locator passages = find (λ p. p.locator == locator) passages

abbrev cite : Citation → RunbookRevision → Option Passage → Result CitedPassage
cite c r none = err (unknown_passage ("locator " ⊕ c.locator ⊕ " does not exist in the revision"))
cite c r (some p) = ok (record {
  citation = c;
  passage = p;
  operation_action = r.operation_action;
  operation_target = r.operation_target;
  preconditions = r.preconditions;
  verifier = r.verification.verifier;
})

-- Whether `hmac.compare_digest` takes the hash, where there is a revision to compare it with. The
-- hashes of a library are hexadecimal.
abbrev is_ascii : String → Bool
is_ascii String.[] = true
is_ascii (String.◌∷◌ c s) = ltb (code c) 128 && is_ascii s

abbrev comparable : Library → String → Bool
comparable [] hash = true
comparable (r ∷ rs) hash = is_ascii hash

abbrev no_revision : Bool → Error
no_revision true = unknown_passage "no verified revision carries this content hash"
no_revision false = type_error "comparing strings with non-ASCII characters is not supported"

-- The checks of a citation against the revision that carries its hash
abbrev resolve_in : Library → Citation → Option RunbookRevision → Result CitedPassage
resolve_in library c none = err (no_revision (comparable library c.content_hash))
resolve_in library c (some r) =
    if c.runbook_id == r.runbook_id && c.revision == r.revision
    then cite c r (find_passage c.locator r.passages)
    else err (malformed_runbook "citation names a different revision")

-- `RunbookLibrary.resolve_citation`
unfoldable pub resolve_citation : Library → Citation → Result CitedPassage
unfolding find_revision find_passage
resolve_citation library c =
    if is_complete c
    then resolve_in library c (find_revision c.content_hash library)
    else err (malformed_runbook "citation fields must be non-empty strings")
