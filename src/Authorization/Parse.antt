-- ===== src/Authorization/Parse.antt =====
-- authorization.py: `parse_authorization`, which validates a record of the operator's policy.
pub mod Permitted
use ops_guard.Prelude.{
  String, Bool, true, false, Option, none, some, List, [], ◌∷◌, ◌==◌, ◌⊕◌, if◌then◌else◌,
}
use ops_guard.Json.{Json, Items, Fields, nil, cons, obj, lookup, keys_are, as_text}
use ops_guard.Json.Read.{non_blank, as_list, as_mapping, require}
use ops_guard.Text.{is_hex64}
use ops_guard.Errors.{
  Error, Result, ok, err, ◌>>=◌, ◌>>◌, check, convert, message, malformed_authorization, type_error,
}
use ops_guard.Env.{Env, canonicalize_json, loads_json}
use ops_guard.Invocation.{reject_unrepresentable_numbers}
use package.ops_guard.Authorization.{Precondition, StandingAuthorization}

abbrev pub authorization_keys : List String
authorization_keys =
    "script_path" ∷ "script_sha256" ∷ "action" ∷ "target" ∷ "arguments" ∷ "preconditions"
    ∷ "runbook_revision_hash" ∷ "runner_profile_digest" ∷ "authorization_id" ∷ []

-- A field that must be a non-blank string
unfoldable pub string_at : Fields → String → Result String
string_at fs key =
    require (non_blank (lookup key fs))
      (malformed_authorization (key ⊕ " must be a non-blank string"))

-- `arguments`, as `json.loads` of their canonical form gives them back
unfoldable pub refreeze : Env → Fields → Result Json
refreeze env arguments = do
  reject_unrepresentable_numbers (obj arguments)
  text ← canonicalize_json env (obj arguments)
  frozen ← loads_json env text
  reject_unrepresentable_numbers frozen
  _ ← canonicalize_json env frozen
  ok frozen

abbrev not_representable : Error → Error
not_representable error =
    malformed_authorization ("arguments are not exactly representable: " ⊕ message error)

-- The frozen arguments of the record; `dict` of another value than an object raises.
unfoldable pub freeze_arguments : Env → Fields → Result Fields
unfolding refreeze
freeze_arguments env arguments = do
  frozen ← convert not_representable (refreeze env arguments)
  require (as_mapping (some frozen)) (type_error "not a mapping")

abbrev precondition_shape : Error
precondition_shape = malformed_authorization "each precondition must have exactly name and expected"

-- One of the `preconditions`
unfoldable pub read_precondition : Json → Result Precondition
read_precondition raw = do
  item ← require (as_mapping (some raw)) precondition_shape
  check (keys_are ("name" ∷ "expected" ∷ []) item) precondition_shape
  name ←
      require (non_blank (lookup "name" item))
        (malformed_authorization "precondition.name must be a non-blank string")
  expected ←
      require (non_blank (lookup "expected" item))
        (malformed_authorization "precondition.expected must be a non-blank string")
  ok (record { name = name; expected = expected })

unfoldable pub read_preconditions : Items → Result (List Precondition)
unfolding read_precondition
read_preconditions nil = ok []
read_preconditions (cons raw rest) = do
  precondition ← read_precondition raw
  preconditions ← read_preconditions rest
  ok (precondition ∷ preconditions)

abbrev hex_error : String → Error
hex_error key = malformed_authorization (key ⊕ " must be 64 hexadecimal characters")

abbrev hex_string : Option Json → Option String
hex_string raw = elim (as_text raw) [ none ↦ none | some s ↦ if is_hex64 s then some s else none ]

-- `parse_authorization`
unfoldable pub parse_authorization : Env → Json → Result StandingAuthorization
unfolding string_at freeze_arguments read_preconditions
parse_authorization env raw = do
  document ←
      require (as_mapping (some raw))
        (malformed_authorization "authorization must be a JSON object")
  check (keys_are authorization_keys document)
      (malformed_authorization "authorization keys do not match")
  authorization_id ← string_at document "authorization_id"
  script_path ← string_at document "script_path"
  action ← string_at document "action"
  target ← string_at document "target"
  revision_hash ← string_at document "runbook_revision_hash"
  script_sha256 ← string_at document "script_sha256"
  check (is_hex64 script_sha256) (hex_error "script_sha256")
  check (is_hex64 revision_hash) (hex_error "runbook_revision_hash")
  profile_digest ←
      require (hex_string (lookup "runner_profile_digest" document))
        (hex_error "runner_profile_digest")
  raw_arguments ←
      require (as_mapping (lookup "arguments" document))
        (malformed_authorization "arguments must be a mapping")
  arguments ← freeze_arguments env raw_arguments
  list ←
      require (as_list (lookup "preconditions" document))
        (malformed_authorization "preconditions must be a list")
  preconditions ← read_preconditions list
  ok (record {
    authorization_id = authorization_id;
    script_path = script_path;
    script_sha256 = script_sha256;
    action = action;
    target = target;
    arguments = arguments;
    preconditions = preconditions;
    runbook_revision_hash = revision_hash;
    runner_profile_digest = profile_digest;
  })
