-- ===== src/Judge/Closed.antt =====
-- judge.py: an evaluation always ends with one advisory for each question, of a closed form.
use ops_guard.Prelude.{
  String, true, Option, none, some, List, [], ◌∷◌, ◌≡◌, refl, arith, inl, inr, Option-cases, ◌==◌,
  Bool, false, if◌then◌else◌, some-injective, subst,
}
use ops_guard.Json.{Json, Fields, end, is_one_of}
use ops_guard.Errors.{Result, ok}
use package.ops_guard.Judge.Projection.{
  LocalJudge, ResultEntry, answered, unanswered, compose_state, fingerprint_of, projection,
  status_of, answer_fields, project_entry, risk_question_id,
}
use package.ops_guard.Judge.{
  Results, parse_all, reject_all, advice, run_all, evaluate_question_map, evaluate_risk,
  first_result,
}

-- The closed failure codes
abbrev pub failure_codes : List String
failure_codes =
    "judge_timeout" ∷ "judge_unavailable" ∷ "judge_invalid_output" ∷ "judge_input_rejected"
    ∷ "judge_inability" ∷ "judge_error" ∷ []

-- Fingerprints do not raise.
abbrev pub Fingerprints : LocalJudge → Type 0
Fingerprints j =
    (state : Json) (id : String) → (f : Option String) × (fingerprint_of j state id ≡ ok f)

-- An advisory: the answer that the model gave to the composed question, or a closed failure code
-- with nothing of the model's.
pub data IsAdvisory (j : LocalJudge) (state : Json) (id : String) (value : Json) : Type 0 where
  answers :
      (envelope : Json) (trace choice : String) (share : Fields) (agreement : Json)
      (f : Option String)
      → j.parse (compose_state state id) ≡ some envelope
      → j.run_question envelope id ≡ some (answered trace choice share agreement)
      → value
        ≡ projection j "answered" id (some trace) f state (answer_fields choice share agreement)
      → IsAdvisory j state id value
  fails :
      (status : String) (trace f : Option String)
      → is_one_of failure_codes status ≡ true
      → value ≡ projection j status id trace f state end
      → IsAdvisory j state id value

-- One result for each question, in their order
pub data AreAdvisories (j : LocalJudge) (state : Json) : List String → Results → Type 0 where
  done : AreAdvisories j state [] []
  more :
      {id : String} {ids : List String} {value : Json} {rest : Results}
      → IsAdvisory j state id value
      → AreAdvisories j state ids rest
      → AreAdvisories j state (id ∷ ids) ((id, value) ∷ rest)

record IsFailure (status : String) : Type 0 where
  listed : is_one_of failure_codes status ≡ true

failure : (status : String) → is_one_of failure_codes status ≡ true → IsFailure status
failure status h = record { listed = h }

either-IsFailure :
    (b : Bool) {s t : String} → IsFailure s → IsFailure t → IsFailure (if b then s else t)
either-IsFailure true h k = h
either-IsFailure false h k = k

status_of-IsFailure : (code : Option String) → IsFailure (status_of code)
unfolding status_of
status_of-IsFailure none = failure "judge_error" refl
status_of-IsFailure (some code) =
    either-IsFailure (code == "MODEL_TIMEOUT") (failure "judge_timeout" refl) (
      either-IsFailure (code == "MODEL_UNAVAILABLE") (failure "judge_unavailable" refl) (
        either-IsFailure (code == "INVALID_MODEL_OUTPUT") (failure "judge_invalid_output" refl) (
          either-IsFailure (code == "CONTEXT_LIMIT_EXCEEDED") (failure "judge_input_rejected" refl)
            (either-IsFailure _ (failure "judge_inability" refl) (failure "judge_error" refl)))))

module _ (j : LocalJudge) (state : Json) where
  entry-IsAdvisory :
      (id : String) (envelope : Json) (f : Option String) (entry : Option ResultEntry)
      → j.parse (compose_state state id) ≡ some envelope
      → j.run_question envelope id ≡ entry
      → IsAdvisory j state id (advice j state id f entry)
  unfolding project_entry
  entry-IsAdvisory id envelope f none p r = fails "judge_error" none f refl refl
  entry-IsAdvisory id envelope f (some (answered t c v g)) p r = answers envelope t c v g f p r refl
  entry-IsAdvisory id envelope f (some (unanswered t code)) p r =
      fails (status_of code) (some t) f (status_of-IsFailure code).listed refl

  -- The evaluation returned, one advisory for each question.
  abbrev Advises : List String → Result Results → Type 0
  Advises ids r = (results : Results) × (r ≡ ok results) × AreAdvisories j state ids results

  reject_all-Advises : Fingerprints j → (ids : List String) → Advises ids (reject_all j state ids)
  unfolding reject_all
  reject_all-Advises prints [] = ([], refl, AreAdvisories.done)
  reject_all-Advises prints (id ∷ ids) =
      let (f, a) = prints state id in
      let (rest, b, h) = reject_all-Advises prints ids in
      (_, rw (a, b) refl, AreAdvisories.more (fails "judge_input_rejected" none f refl refl) h)

  -- Each envelope was parsed from the state and its question.
  data AreParsed : List String → List (String × Json) → Type 0 where
    done : AreParsed [] []
    more :
        {id : String} {ids : List String} {envelope : Json} {rest : List (String × Json)}
        → j.parse (compose_state state id) ≡ some envelope
        → AreParsed ids rest
        → AreParsed (id ∷ ids) ((id, envelope) ∷ rest)

  parse_all-AreParsed :
      (ids : List String) (envelopes : List (String × Json))
      → parse_all j state ids ≡ some envelopes
      → AreParsed ids envelopes
  unfolding parse_all
  parse_all-AreParsed [] envelopes h = subst (AreParsed []) (some-injective h) AreParsed.done
  parse_all-AreParsed (id ∷ ids) envelopes h =
      elim (Option-cases (j.parse (compose_state state id))) [
        | inl a ↦ absurd (ground arith)
        | inr (envelope, a) ↦ elim (Option-cases (parse_all j state ids)) [
          | inl b ↦ absurd (ground arith)
          | inr (rest, b) ↦
              let e : (id, envelope) ∷ rest ≡ envelopes = ground arith in
              subst (AreParsed (id ∷ ids)) e (AreParsed.more a (parse_all-AreParsed ids rest b))
        ]
      ]

  run_all-Advises :
      Fingerprints j
      → (ids : List String) (envelopes : List (String × Json)) → AreParsed ids envelopes
      → Advises ids (run_all j state envelopes)
  unfolding run_all
  run_all-Advises prints [] [] p = ([], refl, AreAdvisories.done)
  run_all-Advises prints [] (_ ∷ envelopes) p = elim p [ ]
  run_all-Advises prints (id ∷ ids) [] p = elim p [ ]
  run_all-Advises prints (id ∷ ids) ((id', envelope) ∷ envelopes) (AreParsed.more a p) =
      let (f, b) = prints state id in
      let (rest, c, h) = run_all-Advises prints ids envelopes p in
      (
        _,
        rw (b, c) refl,
        AreAdvisories.more (entry-IsAdvisory id envelope f (j.run_question envelope id) a refl) h,
      )

  -- An evaluation whose fingerprints do not raise never raises: it returns one advisory for each
  -- question, in order. An advisory is either the answer that the model gave to the composed
  -- question, or one of the six failure codes with nothing of the model's but a trace id.
  pub evaluate_question_map-AreAdvisories :
      Fingerprints j
      → (ids : List String)
      → (results : Results) × (evaluate_question_map j state ids ≡ ok results)
        × AreAdvisories j state ids results
  unfolding evaluate_question_map
  evaluate_question_map-AreAdvisories prints ids = elim (Option-cases (parse_all j state ids)) [
    | inl a ↦ rw (a, evaluate_question_map) (reject_all-Advises prints ids)
    | inr (envelopes, a) ↦
        rw (a, evaluate_question_map)
          (run_all-Advises prints ids envelopes (parse_all-AreParsed ids envelopes a))
  ]

  first-IsAdvisory :
      (id : String) (results : Results)
      → AreAdvisories j state (id ∷ []) results
      → IsAdvisory j state id (first_result results)
  first-IsAdvisory id [] h = elim h [ ]
  first-IsAdvisory id ((_, value) ∷ rest) (AreAdvisories.more i h) = i

  pub evaluate_risk-IsAdvisory :
      Fingerprints j
      → (value : Json) × (evaluate_risk j state ≡ ok value)
        × IsAdvisory j state risk_question_id value
  unfolding evaluate_risk
  evaluate_risk-IsAdvisory prints =
      let (results, a, h) = evaluate_question_map-AreAdvisories prints (risk_question_id ∷ []) in
      (first_result results, rw a refl, first-IsAdvisory risk_question_id results h)
