-- ===== src/Judge/Projection.antt =====
-- judge.py: the composed request, and the projection of a result onto the closed codes. The
-- `local_judge` package and the model behind it are parameters.
use ops_guard.Prelude.{ℕ, String, Option, none, some, [], ◌∷◌, ◌==◌, ◌⊕◌, eqb, if◌then◌else◌}
use ops_guard.Json.{
  Json, Items, Fields, null, str, arr, obj, nil, cons, end, field, nat, lookup, strs, text_or_null,
  is_one_of,
}
use ops_guard.Json.Read.{non_empty, as_mapping}
use ops_guard.Errors.{Result, ok, ◌>>=◌}
use ops_guard.Env.{Env}
use package.ops_guard.Judge.Instructions.{risk_instructions}

-- What `ResultEntry` says: an answer, or the code of its error.
pub data ResultEntry : Type 0 where
  answered : (trace_id choice : String) (vote_share : Fields) (agreement : Json) → ResultEntry
  unanswered : (trace_id : String) (code : Option String) → ResultEntry

-- An HTTP response: its status and its body
pub record Reply : Type 0 where
  pub status_code : ℕ
  pub body : String

-- The fields of `LocalJudge`, with the package's calls; `none` stands for an exception.
pub record LocalJudge : Type 0 where
  pub fingerprint : Option (Json → Result String)
  pub model_digest : Option String
  -- `RequestValidator.parse`
  pub parse : Json → Option Json
  -- `SamplingOrchestrator.run_question`, with the executor and the port of `_run_one`
  pub run_question : Json → String → Option ResultEntry
  -- `str(value)` where no string stands
  pub str_of : Option Json → String

abbrev pub fixed_model : String
fixed_model = "qwen3:8b"

abbrev pub rubric_version : String
rubric_version = "ops-guard-risk-rubric-v1"

abbrev pub state_schema_version : String
state_schema_version = "ops-guard-risk-state-v1"

abbrev pub risk_question_id : String
risk_question_id = "risk_class"

-- `MENU`
abbrev pub menu : Json
menu = obj (
    strs (
      ("routine", "Low-impact and readily reversible.")
      ∷ (
        "review", "Material or context-dependent impact where a human should inspect the advisory.",
      )
      ∷ (
        "critical",
        "Plausible severe, destructive, security, availability, or irreversible impact.",
      )
      ∷ []))

-- `risk_question`
abbrev pub risk_question : Json
risk_question = obj (
    field "type" (str "choice")
      (field "instructions" (str risk_instructions) (field "criteria" menu end)))

abbrev pub inference : Json
inference = obj (
    field "sample_count" (nat 3) (field "temperature" (nat 0) (field "timeout_ms" (nat 10000) end)))

-- `_compose_state`
unfoldable pub compose_state : Json → String → Json
compose_state state question_id = obj (
    field "contract_version" (str "v1") (
      field "state" state (
        field "model" (str fixed_model) (
          field "policy" (obj (field "version" (str rubric_version) end)) (
            field "inference" inference
              (field "questions" (obj (field question_id risk_question end)) end))))))

-- `_resolve_model_digest`, given what the request brought
unfoldable pub resolve_model_digest : Env → Option Reply → Option String
resolve_model_digest env none = none
resolve_model_digest env (some reply) =
    if eqb reply.status_code 200
    then (if reply.body == "" then none else elim (as_mapping (env.loads reply.body)) [
      | none ↦ none
      | some parsed ↦ non_empty (lookup "digest" parsed)
    ])
    else none

-- `_fingerprint_of`
unfoldable pub fingerprint_of : LocalJudge → Json → String → Result (Option String)
fingerprint_of j state question_id = elim j.fingerprint [
  | none ↦ ok none
  | some f ↦
      f (obj (field "state" state (field "question_id" (str question_id) end))) >>= λ s. ok (some s)
]

abbrev pub text_of : LocalJudge → Option Json → String
text_of j (some (str s)) = s
text_of j value = j.str_of value

abbrev pub value_or_null : Option Json → Json
value_or_null none = null
value_or_null (some value) = value

abbrev pub evidence_of : Json → Option Fields
evidence_of (obj fs) = as_mapping (lookup "evidence" fs)
evidence_of _ = none

-- `_citation_refs_of`
unfoldable pub citation_refs_of : LocalJudge → Json → Items
citation_refs_of j state = elim (evidence_of state) [
  | none ↦ nil
  | some e ↦
      cons (str (text_of j (lookup "runbook_id" e) ⊕ "@" ⊕ text_of j (lookup "revision" e))) (
        cons (value_or_null (lookup "content_hash" e))
          (cons (value_or_null (lookup "locator" e)) nil))
]

abbrev pub digest_status : Option String → String
digest_status none = "unavailable"
digest_status (some digest) = if digest == "" then "unavailable" else "resolved"

-- `_projection`; the last argument is `extra`.
unfoldable pub projection :
    LocalJudge → String → String → Option String → Option String → Json → Fields → Json
unfolding citation_refs_of
projection j status question_id trace_id fingerprint state extra = obj (
    field "schema_version" (str "ops-guard-risk-projection-v1") (
      field "status" (str status) (
        field "sample_count" (nat 3) (
          field "temperature" (nat 0) (
            field "timeout_ms" (nat 10000) (
              field "state_schema_version" (str state_schema_version) (
                field "rubric_version" (str rubric_version) (
                  field "prompt_version" (str "ops-guard-risk-prompt-v2") (
                    field "menu" menu (
                      field "model" (str fixed_model) (
                        field "model_digest" (text_or_null j.model_digest) (
                          field "model_digest_status" (str (digest_status j.model_digest)) (
                            field "trace_id" (text_or_null trace_id) (
                              field "question_id" (str question_id) (
                                field "citation_refs" (arr (citation_refs_of j state)) (
                                  field "request_fingerprint" (text_or_null fingerprint)
                                    extra))))))))))))))))

-- `_FAILURE_BY_TERMINAL_CODE.get(code, …)`
unfoldable pub status_of : Option String → String
status_of none = "judge_error"
status_of (some code) =
    if code == "MODEL_TIMEOUT"
    then "judge_timeout"
    else if code == "MODEL_UNAVAILABLE"
    then "judge_unavailable"
    else if code == "INVALID_MODEL_OUTPUT"
    then "judge_invalid_output"
    else if code == "CONTEXT_LIMIT_EXCEEDED"
    then "judge_input_rejected"
    else if is_one_of
        ("INSUFFICIENT_EVIDENCE" ∷ "AMBIGUOUS_EVIDENCE" ∷ "UNSUPPORTED_QUESTION" ∷ "AGGREGATION_TIE"
          ∷ [])
        code
    then "judge_inability"
    else "judge_error"

abbrev pub answer_fields : String → Fields → Json → Fields
answer_fields choice vote_share agreement =
    field "risk_class" (str choice)
      (field "vote_share" (obj vote_share) (field "agreement" agreement end))

-- `_project_entry`
unfoldable pub project_entry : LocalJudge → ResultEntry → String → Option String → Json → Json
unfolding projection status_of
project_entry j (answered trace_id choice vote_share agreement) question_id fingerprint state =
    projection j "answered" question_id (some trace_id) fingerprint state
      (answer_fields choice vote_share agreement)
project_entry j (unanswered trace_id code) question_id fingerprint state =
    projection j (status_of code) question_id (some trace_id) fingerprint state end
