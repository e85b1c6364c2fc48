-- ===== src/Telegram/Preview.antt =====
-- telegram_approval.py: `build_preview_parts`, the numbered parts of an approval preview.
pub mod Bounds
pub mod Start
use ops_guard.Prelude.{
  ℕ, zero, suc, ◌+◌, ◌-◌, ◌*◌, ◌/◌, ◌%◌, String, Bool, true, false, Option, none, some, List, [],
  ◌∷◌, ◌++◌, ◌⊕◌, ltb, if◌then◌else◌, length, take, drop,
}
use ops_guard.Json.{Json, arr, obj}
use ops_guard.Text.{codes}
use ops_guard.Errors.{Result, ok, err, ◌>>=◌, value_error}
use ops_guard.Env.{Env}
use ops_guard.Store.{ExecutionBinding}
use ops_guard.Audit.Redact.{redact}
use ops_guard.Audit.Keys.{default_sensitive_keys}
use ops_guard.Proposals.{FrozenProposal}

abbrev pub Code : Type 0
Code = List ℕ

-- `json.dumps`, with and without `sort_keys`
pub record Dumps : Type 0 where
  pub sorted : Json → String
  pub plain : Json → String

-- The default redactor: no fingerprints
abbrev pub redacted : Env → Json → Result Json
redacted env = redact env default_sensitive_keys none

abbrev joined : List String → String
joined [] = ""
joined (r ∷ []) = r
joined (r ∷ rs) = r ⊕ " | " ⊕ joined rs

abbrev evidence_line : List String → String
evidence_line [] = ""
evidence_line refs = "Evidence: " ⊕ joined refs ⊕ "\n"

abbrev script_line : Option ExecutionBinding → String
script_line none = ""
script_line (some b) =
    "Script: " ⊕ b.script_path ⊕ " (sha256 " ⊕ b.script_sha256 ⊕ ", runner " ⊕ b.runner_profile_id
    ⊕ " profile " ⊕ b.runner_profile_digest ⊕ ")\n"

-- The `body`
unfoldable pub preview_body :
    Env → Dumps → FrozenProposal → List String → Option ExecutionBinding → Result String
preview_body env dumps f refs binding = do
  arguments ← redacted env (obj f.invocation.arguments)
  preconditions ← redacted env (arr f.invocation.preconditions)
  ok (
      "Proposal: "
      ⊕ f.proposal_id
      ⊕ "\nInvocation digest: "
      ⊕ f.invocation_digest
      ⊕ "\nExpires at: "
      ⊕ env.format_timestamp f.expires_at
      ⊕ "\nAction: "
      ⊕ f.invocation.action
      ⊕ "\nTarget: "
      ⊕ f.invocation.target
      ⊕ "\nArguments: "
      ⊕ dumps.sorted arguments
      ⊕ "\nPreconditions: "
      ⊕ dumps.plain preconditions
      ⊕ "\n"
      ⊕ evidence_line refs
      ⊕ script_line binding
      ⊕ "Approving records one proposal-bound operator approval; the proposal expires unapproved otherwise.")

-- The loop over the remaining text, with the number of parts that may still be cut
unfoldable pub chunks : ℕ → ℕ → Code → Result (List Code)
unfolding take drop
chunks limit budget [] = ok []
chunks limit zero (c ∷ cs) =
    err (value_error "proposal preview exceeds the maximum number of parts")
chunks limit (suc budget) (c ∷ cs) =
    chunks limit budget (drop limit (c ∷ cs)) >>= λ rest. ok (take limit (c ∷ cs) ∷ rest)

-- A number in decimal digits, with as many rounds as it may have digits
unfoldable pub decimal : ℕ → ℕ → Code
decimal zero n = []
decimal (suc rounds) n =
    let rest = decimal rounds (n / 10) ++ (b'0' + n % 10) ∷ [] in
    if ltb n 10 then (b'0' + n) ∷ [] else rest

-- `header(index, total)` and the newline
unfoldable pub header : ℕ → ℕ → Code
unfolding decimal
header index total =
    codes "[ops-guard approval "
    ++ (decimal index index ++ (b'/' ∷ (decimal total total ++ codes "]\n")))

-- The numbered parts, from an index on
unfoldable pub number_parts : ℕ → ℕ → List Code → List Code
unfolding header
number_parts index total [] = []
number_parts index total (c ∷ cs) = (header index total ++ c) ∷ number_parts (index + 1) total cs

-- `PREVIEW_PART_LIMIT` and `MAX_PREVIEW_PARTS`
abbrev pub preview_part_limit : ℕ
preview_part_limit = 4096

abbrev pub max_preview_parts : ℕ
max_preview_parts = 5

-- The parts of a body
unfoldable pub split_body : String → Result (List Code)
unfolding chunks number_parts
split_body body = do
  cut ← chunks (preview_part_limit - 64) max_preview_parts (codes body)
  ok (number_parts 1 (length cut) cut)

-- `build_preview_parts`
unfoldable pub build_preview_parts :
    Env → Dumps → FrozenProposal → List String → Option ExecutionBinding → Result (List Code)
unfolding preview_body split_body
build_preview_parts env dumps f refs binding = do
  body ← preview_body env dumps f refs binding
  split_body body
