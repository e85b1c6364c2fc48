-- ===== src/Judge.antt =====
-- judge.py: the evaluation by the advisory judge. The `local_judge` package and the model behind it are parameters.
pub mod Projection
pub mod Closed
mod Instructions
use ops_guard.Prelude.{
  ℕ, String, Bool, true, false, Option, none, some, List, [], ◌∷◌, ◌==◌, ◌⊕◌, eqb, if◌then◌else◌,
}
use ops_guard.Json.{
  Json, Items, Fields, null, str, arr, obj, nil, cons, end, field, nat, lookup, strs, text_or_null,
  is_one_of,
}
use ops_guard.Json.Read.{non_empty, as_mapping}
use ops_guard.Errors.{Result, ok, err, ◌>>=◌}
use ops_guard.Env.{Env}
use ops_guard.Authorization.{precondition_items}
use ops_guard.Invocation.{Invocation, to_json}
use ops_guard.Runbooks.{CitedPassage}
use package.ops_guard.Judge.Projection.{
  ResultEntry, Reply, LocalJudge, fixed_model, rubric_version, state_schema_version,
  risk_question_id, menu, risk_question, inference, compose_state, resolve_model_digest,
  fingerprint_of, text_of, value_or_null, evidence_of, citation_refs_of, digest_status, projection,
  status_of, answer_fields, project_entry, answered, unanswered,
}

-- The results, by question id
abbrev pub Results : Type 0
Results = List (String × Json)

-- The dictionary of validated envelopes, or the exception of one of them
unfoldable pub parse_all : LocalJudge → Json → List String → Option (List (String × Json))
parse_all j state [] = some []
parse_all j state (id ∷ ids) = elim (j.parse (compose_state state id)) [
  | none ↦ none
  | some envelope ↦ elim (parse_all j state ids) [
    | none ↦ none
    | some rest ↦ some ((id, envelope) ∷ rest)
  ]
]

-- Every question is rejected.
unfoldable pub reject_all : LocalJudge → Json → List String → Result Results
unfolding projection fingerprint_of
reject_all j state [] = ok []
reject_all j state (id ∷ ids) = do
  fingerprint ← fingerprint_of j state id
  rest ← reject_all j state ids
  ok ((id, projection j "judge_input_rejected" id none fingerprint state end) ∷ rest)

abbrev advice : LocalJudge → Json → String → Option String → Option ResultEntry → Json
advice j state id fingerprint none = projection j "judge_error" id none fingerprint state end
advice j state id fingerprint (some entry) = project_entry j entry id fingerprint state

-- The loop over the envelopes
unfoldable pub run_all : LocalJudge → Json → List (String × Json) → Result Results
unfolding projection project_entry fingerprint_of
run_all j state [] = ok []
run_all j state ((id, envelope) ∷ envelopes) = do
  fingerprint ← fingerprint_of j state id
  rest ← run_all j state envelopes
  ok ((id, advice j state id fingerprint (j.run_question envelope id)) ∷ rest)

-- `evaluate_question_map`, for question ids that are distinct
unfoldable pub evaluate_question_map : LocalJudge → Json → List String → Result Results
unfolding parse_all reject_all run_all
evaluate_question_map j state ids = elim (parse_all j state ids) [
  | none ↦ reject_all j state ids
  | some envelopes ↦ run_all j state envelopes
]

abbrev first_result : Results → Json
first_result [] = null
first_result ((id, advice) ∷ rest) = advice

-- `evaluate_risk`
unfoldable pub evaluate_risk : LocalJudge → Json → Result Json
unfolding evaluate_question_map
evaluate_risk j state = do
  results ← evaluate_question_map j state (risk_question_id ∷ [])
  ok (first_result results)

-- `judge_state`
unfoldable pub judge_state : Invocation → CitedPassage → Json
unfolding to_json
judge_state invocation cited = obj (
    field "schema_version" (str state_schema_version) (
      field "invocation" (to_json invocation) (
        field "evidence"
          (obj (
            field "runbook_id" (str cited.citation.runbook_id) (
              field "revision" (str cited.citation.revision) (
                field "content_hash" (str cited.citation.content_hash) (
                  field "locator" (str cited.citation.locator) (
                    field "operation"
                      (obj (
                        strs (
                          ("action", cited.operation_action)
                          ∷ ("target", cited.operation_target)
                          ∷ [])))
                      (field "preconditions" (arr (precondition_items cited.preconditions))
                        (field "passage_text" (str cited.passage.text) end))))))))
          end)))
