-- ===== src/Runbooks/Load/Raises.antt =====
-- runbooks.py: every exception of `parse_revision` is one that `RunbookLibrary.load` reports.
use ops_guard.Prelude.{
  String, Bool, true, false, not, Option, none, some, List, [], ◌∷◌, ◌==◌, ◌≡◌, refl, arith, inl,
  inr, Option-cases,
}
use ops_guard.Json.{Json, Items, Fields, nil, cons, arr, lookup, keys_are, is_one_of}
use ops_guard.Json.Read.{require, as_mapping, as_list, non_blank, non_empty}
use ops_guard.Text.{is_hex64}
use ops_guard.Errors.{Error, Result, ok, err, ◌>>=◌, check, is_proposal_error}
use ops_guard.Env.{Env, Moment, naive, aware, document_digest}
use package.ops_guard.Runbooks.Parse.{
  require_str, require_str_in, parse_passage, parse_passage_list, parse_passages,
  parse_precondition, parse_precondition_list, parse_preconditions, verified_string, aware_moment,
  parse_verification, wrong_keys, read_revision, parse_revision, revision_keys,
}
use package.ops_guard.Runbooks.Load.{is_excluded}

-- If the call raises, `load` excludes the document.
abbrev pub Excludes {ℓ} : {A : Type ℓ} → Result A → Type 0
Excludes (ok value) = Unit {0}
Excludes (err error) = is_excluded error ≡ true

chain-Excludes {ℓ κ} :
    {A : Type ℓ} {B : Type κ} (r : Result A) (next : A → Result B)
    → Excludes r
    → ((a : A) → Excludes (next a))
    → Excludes (r >>= next)
chain-Excludes (ok value) next h k = k value
chain-Excludes (err error) next h k = h

require-Excludes {ℓ} :
    {A : Type ℓ} (o : Option A) (error : Error)
    → is_excluded error ≡ true
    → Excludes (require o error)
require-Excludes none error h = h
require-Excludes (some value) error h = tt

check-Excludes : (b : Bool) (error : Error) → is_excluded error ≡ true → Excludes (check b error)
check-Excludes true error h = tt
check-Excludes false error h = h

str_in-Excludes : (fs : Fields) (k place : String) → Excludes (require_str_in fs k place)
unfolding require_str_in is_excluded is_proposal_error
str_in-Excludes fs k place = require-Excludes (non_blank (lookup k fs)) _ refl

str-Excludes : (fs : Fields) (k : String) → Excludes (require_str fs k)
unfolding require_str is_excluded is_proposal_error
str-Excludes fs k = require-Excludes (non_blank (lookup k fs)) _ refl

verified-Excludes : (fs : Fields) (k : String) → Excludes (verified_string fs k)
unfolding verified_string is_excluded is_proposal_error
verified-Excludes fs k = require-Excludes (non_blank (lookup k fs)) _ refl

passage-Excludes : (raw : Json) (seen : List String) → Excludes (parse_passage raw seen)
unfolding parse_passage is_excluded is_proposal_error
passage-Excludes raw seen =
    chain-Excludes (require (as_mapping (some raw)) _) _
      (require-Excludes (as_mapping (some raw)) _ refl)
      λ item.
        chain-Excludes (check (keys_are ("locator" ∷ "text" ∷ []) item) _) _
          (check-Excludes _ _ refl)
          λ a.
            chain-Excludes (require_str_in item "locator" "passage") _
              (str_in-Excludes item "locator" "passage")
              λ locator.
                chain-Excludes (require_str_in item "text" "passage") _
                  (str_in-Excludes item "text" "passage")
                  λ text.
                    chain-Excludes (check (not (is_one_of seen locator)) _) _
                      (check-Excludes _ _ refl) λ b. tt

passage_list-Excludes : (its : Items) (seen : List String) → Excludes (parse_passage_list its seen)
unfolding parse_passage_list
passage_list-Excludes nil seen = tt
passage_list-Excludes (cons raw rest) seen =
    chain-Excludes (parse_passage raw seen) _ (passage-Excludes raw seen) λ p.
      chain-Excludes (parse_passage_list rest (p.locator ∷ seen)) _ (passage_list-Excludes rest _)
        λ ps. tt

passages-Excludes : (raw : Option Json) → Excludes (parse_passages raw)
unfolding parse_passages as_list is_excluded is_proposal_error
passages-Excludes (some (arr nil)) = refl
passages-Excludes (some (arr (cons first rest))) = passage_list-Excludes (cons first rest) []
passages-Excludes none = refl
passages-Excludes (some _) = refl

precondition-Excludes : (raw : Json) → Excludes (parse_precondition raw)
unfolding parse_precondition is_excluded is_proposal_error
precondition-Excludes raw =
    chain-Excludes (require (as_mapping (some raw)) _) _
      (require-Excludes (as_mapping (some raw)) _ refl)
      λ item.
        chain-Excludes (check (keys_are ("name" ∷ "expected" ∷ []) item) _) _
          (check-Excludes _ _ refl)
          λ a.
            chain-Excludes (require_str_in item "name" "precondition") _
              (str_in-Excludes item "name" "precondition")
              λ name.
                chain-Excludes (require_str_in item "expected" "precondition") _
                  (str_in-Excludes item "expected" "precondition") λ expected. tt

precondition_list-Excludes : (its : Items) → Excludes (parse_precondition_list its)
unfolding parse_precondition_list
precondition_list-Excludes nil = tt
precondition_list-Excludes (cons raw rest) =
    chain-Excludes (parse_precondition raw) _ (precondition-Excludes raw) λ p.
      chain-Excludes (parse_precondition_list rest) _ (precondition_list-Excludes rest) λ ps. tt

preconditions-Excludes : (raw : Option Json) → Excludes (parse_preconditions raw)
unfolding parse_preconditions is_excluded is_proposal_error
preconditions-Excludes raw =
    chain-Excludes (require (as_list raw) _) _ (require-Excludes (as_list raw) _ refl)
      λ its. precondition_list-Excludes its

aware_moment-Excludes : (o : Option Moment) → Excludes (aware_moment o)
unfolding aware_moment is_excluded is_proposal_error
aware_moment-Excludes none = refl
aware_moment-Excludes (some (naive t)) = refl
aware_moment-Excludes (some (aware t)) = tt

verification-Excludes : (env : Env) (raw : Option Json) → Excludes (parse_verification env raw)
unfolding parse_verification is_excluded is_proposal_error
verification-Excludes env raw =
    chain-Excludes (require (as_mapping raw) _) _ (require-Excludes (as_mapping raw) _ refl)
      λ document.
        chain-Excludes
          (check (keys_are ("verifier" ∷ "verified_at" ∷ "applicability" ∷ []) document) _) _
          (check-Excludes _ _ refl)
          λ a.
            chain-Excludes (verified_string document "verifier") _ (verified-Excludes document _)
              λ verifier.
                chain-Excludes (verified_string document "applicability") _
                  (verified-Excludes document _)
                  λ applicability.
                    chain-Excludes (require (non_empty (lookup "verified_at" document)) _) _
                      (require-Excludes (non_empty (lookup "verified_at" document)) _ refl)
                      λ spelling.
                        chain-Excludes (aware_moment (env.fromisoformat spelling)) _
                          (aware_moment-Excludes _) λ moment. tt

read-Excludes :
    (env : Env) (fs op : Fields) (hash : String) → Excludes (read_revision env fs op hash)
unfolding read_revision
read-Excludes env fs op hash =
    chain-Excludes (require_str fs "runbook_id") _ (str-Excludes fs _) λ runbook_id.
      chain-Excludes (require_str fs "revision") _ (str-Excludes fs _) λ revision.
        chain-Excludes (require_str_in op "action" "operation") _
          (str_in-Excludes op "action" "operation")
          λ action.
            chain-Excludes (require_str_in op "target" "operation") _
              (str_in-Excludes op "target" "operation")
              λ target.
                chain-Excludes (parse_preconditions (lookup "preconditions" fs)) _
                  (preconditions-Excludes _)
                  λ preconditions.
                    chain-Excludes (parse_passages (lookup "passages" fs)) _ (passages-Excludes _)
                      λ passages.
                        chain-Excludes (parse_verification env (lookup "verification" fs)) _
                          (verification-Excludes env _) λ v. tt

digest-Excludes : (env : Env) (body : Json) → Excludes (document_digest env body)
unfolding document_digest is_excluded is_proposal_error
digest-Excludes env body = elim (Option-cases (env.canonicalize body)) [
  | inl a ↦ rw (a, Excludes) refl
  | inr (text, a) ↦ rw (a, Excludes) tt
]

wrong_keys-Excludes : (fs : Fields) → is_excluded (wrong_keys fs) ≡ true
unfolding wrong_keys is_excluded is_proposal_error
wrong_keys-Excludes fs = ground arith

pub parse_revision-Excludes : (env : Env) (raw : Json) → Excludes (parse_revision env raw)
unfolding parse_revision is_excluded is_proposal_error
parse_revision-Excludes env raw =
    chain-Excludes (require (as_mapping (some raw)) _) _
      (require-Excludes (as_mapping (some raw)) _ refl)
      λ fs.
        chain-Excludes (check (keys_are revision_keys fs) _) _
          (check-Excludes _ _ (wrong_keys-Excludes fs))
          λ a.
            chain-Excludes (require (as_mapping (lookup "operation" fs)) _) _
              (require-Excludes (as_mapping (lookup "operation" fs)) _ refl)
              λ op.
                chain-Excludes (check (keys_are ("action" ∷ "target" ∷ []) op) _) _
                  (check-Excludes _ _ refl)
                  λ b. chain-Excludes (require_str fs "content_hash") _ (str-Excludes fs _) λ hash.
                    chain-Excludes (check (is_hex64 hash) _) _ (check-Excludes _ _ refl) λ c.
                      chain-Excludes (read_revision env fs op hash) _ (read-Excludes env fs op hash)
                        λ q.
                          chain-Excludes (document_digest env q.body) _ (digest-Excludes env _)
                            λ expected.
                              chain-Excludes (check (expected == hash) _) _
                                (check-Excludes _ _ refl) λ d. tt
