-- ===== src/Authorization.antt =====
-- authorization.py: exact standing authorization of a complete invocation.
pub mod Exact
pub mod Parse
use ops_guard.Prelude.{
  String, Bool, true, false, ◌&&◌, Option, none, some, List, [], ◌∷◌, ◌==◌, ◌⊕◌, if◌then◌else◌,
}
use ops_guard.Json.{Json, Items, Fields, str, obj, arr, nil, cons, field, end}
use ops_guard.Env.{Env, hmac_eq}
use ops_guard.Invocation.{Invocation}

-- The dictionary `{"name": …, "expected": …}`
pub record Precondition : Type 0 where
  pub name : String
  pub expected : String

abbrev pub precondition_items : List Precondition → Items
precondition_items [] = nil
precondition_items (p ∷ ps) =
    cons (obj (field "name" (str p.name) (field "expected" (str p.expected) end)))
      (precondition_items ps)

pub record StandingAuthorization : Type 0 where
  pub authorization_id : String
  pub script_path : String
  pub script_sha256 : String
  pub action : String
  pub target : String
  pub arguments : Fields
  pub preconditions : List Precondition
  pub runbook_revision_hash : String
  pub runner_profile_digest : String

pub record ScriptIdentity : Type 0 where
  pub path : String
  pub sha256 : String

pub record MatchResult : Type 0 where
  pub matched : Bool
  pub authorization_id : String
  pub reason : String

-- The names and results of `checks`
abbrev Checks : Type 0
Checks = List (String × Bool)

-- The loop over `checks`: the first that is unequal decides.
verdict : String → Checks → MatchResult
verdict id [] = record {
  matched = true;
  authorization_id = id;
  reason = "exact complete-invocation match";
}
verdict id ((field_name, equal) ∷ rest) = if equal then verdict id rest else record {
  matched = false;
  authorization_id = id;
  reason = field_name ⊕ " differs from the permitted invocation";
}

abbrev optional_eq : Option String → String → Bool
optional_eq none right = true
optional_eq (some left) right = hmac_eq left right

abbrev checks :
    StandingAuthorization → Invocation → ScriptIdentity → Option String → Bool → Bool → Checks
checks a i script profile arguments_equal preconditions_equal =
    ("script_path", script.path == a.script_path)
    ∷ ("script_sha256", hmac_eq script.sha256 a.script_sha256)
    ∷ ("action", i.action == a.action)
    ∷ ("target", i.target == a.target)
    ∷ ("arguments", arguments_equal)
    ∷ ("preconditions", preconditions_equal)
    ∷ ("runbook_revision_hash", hmac_eq i.runbook_revision_hash a.runbook_revision_hash)
    ∷ ("runner_profile_digest", optional_eq profile a.runner_profile_digest)
    ∷ []

-- Equality of two canonical forms, `none` where one side cannot be canonicalized.
unfoldable pub canonical_eq : Env → Json → Json → Option Bool
canonical_eq env a b = elim (env.canonicalize a) [
  | none ↦ none
  | some x ↦ elim (env.canonicalize b) [ none ↦ none | some y ↦ some (x == y) ]
]

-- The comparisons of the arguments and the preconditions, then the checks
settle :
    StandingAuthorization
    → Invocation
    → ScriptIdentity
    → Option String
    → Option Bool
    → Option Bool
    → MatchResult
unfolding verdict
settle a i script profile (some arguments_equal) (some preconditions_equal) =
    verdict a.authorization_id (checks a i script profile arguments_equal preconditions_equal)
settle a i script profile _ _ = record {
  matched = false;
  authorization_id = a.authorization_id;
  reason = "canonicalization failed on one side";
}

-- `match`
unfoldable pub match :
    Env → StandingAuthorization → Invocation → ScriptIdentity → Option String → MatchResult
unfolding settle
match env a i script profile =
    settle a i script profile (canonical_eq env (obj i.arguments) (obj a.arguments))
      (canonical_eq env (arr i.preconditions) (arr (precondition_items a.preconditions)))
