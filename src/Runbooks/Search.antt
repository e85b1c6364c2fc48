-- ===== src/Runbooks/Search.antt =====
-- retrieval.py: `RunbookLibrary.search`, which ranks the passages of a library against a question.
pub mod Order
pub mod Sorted
pub mod Best
pub mod Evidence
use ops_guard.Prelude.{
  ℕ, zero, suc, ◌+◌, String, Bool, true, false, ◌||◌, List, [], ◌∷◌, ◌++◌, ◌==◌, ◌⊕◌, ltb, eqb,
  if◌then◌else◌, count_if, take,
}
use ops_guard.Errors.{Result, ok, ◌>>=◌, ◌>>◌, check, value_error}
use ops_guard.Prelude.{not}
use ops_guard.Text.{codes, is_blank, terms, Term, is_wanted, same, text_le}
use ops_guard.Authorization.{Precondition}
use package.ops_guard.Runbooks.{Passage, RunbookRevision, Library, Citation}

pub record SearchResult : Type 0 where
  pub runbook_id : String
  pub revision : String
  pub content_hash : String
  pub locator : String
  pub passage_text : String
  pub operation_action : String
  pub operation_target : String
  pub preconditions : List Precondition
  pub verifier : String
  pub verified_at : ℕ
  pub applicability : String
  pub score : ℕ

-- `SearchResult.citation`
unfoldable pub citation : SearchResult → Citation
citation r = record {
  runbook_id = r.runbook_id;
  revision = r.revision;
  content_hash = r.content_hash;
  locator = r.locator;
}

-- The number of terms of the passage and its operation that the question wants
unfoldable pub score : List Term → RunbookRevision → Passage → ℕ
score wanted r p =
    count_if (is_wanted wanted)
      (terms p.text ++ terms (r.operation_action ⊕ " " ⊕ r.operation_target))

abbrev pub result : RunbookRevision → Passage → ℕ → SearchResult
result r p n = record {
  runbook_id = r.runbook_id;
  revision = r.revision;
  content_hash = r.content_hash;
  locator = p.locator;
  passage_text = p.text;
  operation_action = r.operation_action;
  operation_target = r.operation_target;
  preconditions = r.preconditions;
  verifier = r.verification.verifier;
  verified_at = r.verification.verified_at;
  applicability = r.verification.applicability;
  score = n;
}

-- One round of the scoring loop; a passage without a wanted term is left out.
abbrev keep : RunbookRevision → Passage → ℕ → List SearchResult → List SearchResult
keep r p zero rest = rest
keep r p (suc n) rest = result r p (suc n) ∷ rest

unfoldable pub score_passages : List Term → RunbookRevision → List Passage → List SearchResult
unfolding score
score_passages wanted r [] = []
score_passages wanted r (p ∷ ps) = keep r p (score wanted r p) (score_passages wanted r ps)

-- The loop over the entries of the library
unfoldable pub score_all : List Term → Library → List SearchResult
unfolding score_passages
score_all wanted [] = []
score_all wanted (r ∷ rs) = score_passages wanted r r.passages ++ score_all wanted rs

-- `(a, b) <= (c, d)` on texts
unfoldable pub pair_le : List ℕ → List ℕ → List ℕ → List ℕ → Bool
pair_le a b c d = if same a c then text_le b d else text_le a c

-- `(-a.score, a.runbook_id, a.locator) <= (-b.score, b.runbook_id, b.locator)`
unfoldable pub ranks : SearchResult → SearchResult → Bool
unfolding pair_le
ranks a b =
    if ltb b.score a.score
    then true
    else if eqb b.score a.score
    then pair_le (codes a.runbook_id) (codes a.locator) (codes b.runbook_id) (codes b.locator)
    else false

-- `list.sort`, which is stable
unfoldable pub insert_ranked : SearchResult → List SearchResult → List SearchResult
unfolding ranks
insert_ranked x [] = x ∷ []
insert_ranked x (y ∷ ys) =
    let rest = insert_ranked x ys in if ranks x y then x ∷ y ∷ ys else y ∷ rest

unfoldable pub sort : List SearchResult → List SearchResult
unfolding insert_ranked
sort [] = []
sort (x ∷ xs) = insert_ranked x (sort xs)

-- `RunbookLibrary.search`
unfoldable pub search_library : Library → String → ℕ → Result (List SearchResult)
unfolding score_all sort take
search_library library question limit = do
  check (not (is_blank question)) (value_error "question must be a non-empty string")
  check (ltb 0 limit) (value_error "limit must be at least 1")
  ok (take limit (sort (score_all (terms question) library)))
