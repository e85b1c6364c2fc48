-- ===== src/Preconditions/Policy.antt =====
-- preconditions.py: `load_policy`, which validates the operator policy document.
pub mod Spelled
pub mod Loaded
pub mod Timeout
use ops_guard.Prelude.{
  ℕ, String, Bool, true, false, not, ◌&&◌, ◌||◌, Option, none, some, List, [], ◌∷◌, ◌==◌, ◌⊕◌, eqb,
  if◌then◌else◌,
}
use ops_guard.Json.{Json, Items, Fields, nil, cons, obj, lookup, keys_are, as_text}
use ops_guard.Json.Read.{non_empty, as_list, as_mapping, as_nat, require}
use ops_guard.Errors.{
  Error, Result, ok, err, ◌>>=◌, ◌>>◌, check, convert, message, policy_error, is_proposal_error,
}
use ops_guard.Env.{Env, document_digest}
use ops_guard.Authorization.{StandingAuthorization}
use ops_guard.Authorization.Parse.{parse_authorization}
use package.ops_guard.Preconditions.{
  ObserverBinding, OperatorPolicy, Registry, ObserverKey, has_observer_key,
}
use package.ops_guard.Preconditions.Default.{validate_settings}

-- `except ProposalError as error: raise PolicyError(…)`
abbrev standing_error : Error → Error
standing_error error =
    if is_proposal_error error
    then policy_error ("standing_authorizations: " ⊕ message error)
    else error

unfoldable pub parse_standing : Env → Items → Result (List StandingAuthorization)
parse_standing env nil = ok []
parse_standing env (cons raw rest) = do
  a ← convert standing_error (parse_authorization env raw)
  standing ← parse_standing env rest
  ok (a ∷ standing)

abbrev binding_keys : List String
binding_keys =
    "runbook_id" ∷ "revision" ∷ "content_hash" ∷ "precondition_index" ∷ "observer_id" ∷ "settings"
    ∷ []

abbrev text_at : Fields → String → Result String
text_at fs key =
    require (non_empty (lookup key fs))
      (policy_error ("observer_bindings." ⊕ key ⊕ " must be a non-empty string"))

-- One of the `observer_bindings`, before it is compared with the others
unfoldable pub parse_binding : Json → Result ObserverBinding
parse_binding raw = do
  fs ← require (as_mapping (some raw)) (policy_error "observer_bindings: must be an object")
  check (keys_are binding_keys fs)
      (policy_error "observer_bindings: keys do not match the binding schema")
  runbook_id ← text_at fs "runbook_id"
  revision ← text_at fs "revision"
  content_hash ← text_at fs "content_hash"
  observer_id ← text_at fs "observer_id"
  index ←
      require (as_nat (lookup "precondition_index" fs))
        (policy_error "observer_bindings.precondition_index must be a non-negative integer")
  settings ←
      require (as_mapping (lookup "settings" fs))
        (policy_error "observer_bindings.settings must be a JSON object")
  ok (record {
    runbook_id = runbook_id;
    revision = revision;
    content_hash = content_hash;
    precondition_index = index;
    observer_id = observer_id;
    settings = settings;
  })

-- `ObserverBinding.key`
abbrev pub key_of : ObserverBinding → ObserverKey
key_of b = record {
  runbook_id = b.runbook_id;
  revision = b.revision;
  content_hash = b.content_hash;
  precondition_index = b.precondition_index;
}

-- `key in bindings`
unfoldable pub has_key_of : ObserverBinding → List ObserverBinding → Bool
has_key_of b [] = false
has_key_of b (d ∷ ds) = has_observer_key (key_of b) d || has_key_of b ds

-- The loop over the bindings, with those that it has accepted
unfoldable pub parse_bindings :
    Registry → Items → List ObserverBinding → Result (List ObserverBinding)
unfolding parse_binding has_key_of
parse_bindings registry nil seen = ok []
parse_bindings registry (cons raw rest) seen = do
  b ← parse_binding raw
  check (not (has_key_of b seen)) (
      policy_error
        ("observer_bindings: duplicates the binding for " ⊕ b.runbook_id ⊕ "@" ⊕ b.revision))
  _ ← validate_settings registry b.observer_id b.settings
  bindings ← parse_bindings registry rest (b ∷ seen)
  ok (b ∷ bindings)

abbrev pub policy_keys : List String
policy_keys = "schema_version" ∷ "standing_authorizations" ∷ "observer_bindings" ∷ []

abbrev is_text : String → Option String → Bool
is_text expected none = false
is_text expected (some s) = s == expected

abbrev lists_error : Error
lists_error = policy_error "standing_authorizations and observer_bindings must be lists"

-- `load_policy`
unfoldable pub load_policy : Env → Registry → Json → Result OperatorPolicy
unfolding parse_standing parse_bindings
load_policy env registry raw = do
  document ← require (as_mapping (some raw)) (policy_error "policy must be a JSON object")
  check (keys_are policy_keys document)
      (policy_error "policy keys do not match the operator-policy schema")
  check (is_text "ops-guard-policy-v1" (as_text (lookup "schema_version" document)))
      (policy_error "policy schema_version must be 'ops-guard-policy-v1'")
  standing_raw ← require (as_list (lookup "standing_authorizations" document)) lists_error
  bindings_raw ← require (as_list (lookup "observer_bindings" document)) lists_error
  standing ← parse_standing env standing_raw
  bindings ← parse_bindings registry bindings_raw []
  digest ← document_digest env raw
  ok (record { digest = digest; standing = standing; bindings = bindings })
