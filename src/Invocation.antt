-- ===== src/Invocation.antt =====
-- invocation.py: the complete invocation, its freeze boundary and its digest.
pub mod Numbers
use package.ops_guard.Invocation.Numbers.{check_int}
use ops_guard.Prelude.{
  String, Bool, true, false, Option, none, some, List, [], ◌∷◌, ◌==◌, if◌then◌else◌, ltb, ◌^◌,
}
use ops_guard.Prelude.Int.{magnitude}
use ops_guard.Json.{
  Json, Items, Fields, null, bool, int, float, str, arr, obj, nil, cons, end, field, lookup,
  keys_are,
}
use ops_guard.Errors.{Result, ok, err, ◌>>=◌, ◌>>◌, value_error, type_error}
use ops_guard.Env.{Env, canonicalize_json, loads_json}

pub record Invocation : Type 0 where
  pub action : String
  pub target : String
  pub arguments : Fields
  pub preconditions : Items
  pub runbook_revision_hash : String

-- `Invocation.to_json`
unfoldable pub to_json : Invocation → Json
to_json i = obj (
    field "action" (str i.action) (
      field "target" (str i.target) (
        field "arguments" (obj i.arguments) (
          field "preconditions" (arr i.preconditions)
            (field "runbook_revision_hash" (str i.runbook_revision_hash) end)))))

-- `_reject_unrepresentable_numbers`: `ok` when the walk ends without an exception.
unfoldable mutual
  pub reject_unrepresentable_numbers : Json → Result (Unit {0})
  reject_unrepresentable_numbers null = ok tt
  reject_unrepresentable_numbers (bool b) = ok tt
  reject_unrepresentable_numbers (int n) = check_int (magnitude n)
  reject_unrepresentable_numbers (float x) = ok tt
  reject_unrepresentable_numbers (str s) = ok tt
  reject_unrepresentable_numbers (arr xs) = reject_items xs
  reject_unrepresentable_numbers (obj fs) = reject_fields fs

  pub reject_items : Items → Result (Unit {0})
  reject_items nil = ok tt
  reject_items (cons x xs) = reject_unrepresentable_numbers x >>= λ _. reject_items xs

  pub reject_fields : Fields → Result (Unit {0})
  reject_fields end = ok tt
  reject_fields (field k v fs) = reject_unrepresentable_numbers v >>= λ _. reject_fields fs

-- `Invocation.canonical_bytes`: the bytes must round-trip.
unfoldable pub canonical_bytes : Env → Invocation → Result String
canonical_bytes env i = do
  reject_unrepresentable_numbers (to_json i)
  frozen ← canonicalize_json env (to_json i)
  reparsed ← loads_json env frozen
  reject_unrepresentable_numbers reparsed
  again ← canonicalize_json env reparsed
  if again == frozen then ok frozen else err (value_error "invocation does not round-trip")

-- `Invocation.digest`
unfoldable pub digest : Env → Invocation → Result String
digest env i = do frozen ← canonical_bytes env i; ok (env.sha256 frozen)

abbrev pub invocation_keys : List String
invocation_keys = "action" ∷ "target" ∷ "arguments" ∷ "preconditions" ∷ "runbook_revision_hash" ∷ []

-- The constructor call of `from_frozen_json` with the checks of `__post_init__`. `arguments` and
-- `preconditions` that are no object and no list raise here; the code raises when it copies them.
rebuild : Option Json → Option Json → Option Json → Option Json → Option Json → Result Invocation
rebuild (some (str a)) (some (str t)) (some (obj args)) (some (arr pre)) (some (str h)) =
    ok (record {
      action = a;
      target = t;
      arguments = args;
      preconditions = pre;
      runbook_revision_hash = h;
    })
rebuild _ _ _ _ _ = err (type_error "a field of the invocation has the wrong type")

-- `Invocation.from_frozen_json`
unfoldable pub from_frozen_json : Json → Result Invocation
unfolding rebuild lookup keys_are
from_frozen_json (obj fs) =
    if keys_are invocation_keys fs
    then rebuild (lookup "action" fs) (lookup "target" fs) (lookup "arguments" fs)
        (lookup "preconditions" fs) (lookup "runbook_revision_hash" fs)
    else err (value_error "frozen payload does not match the invocation shape")
from_frozen_json _ = err (value_error "frozen payload does not match the invocation shape")

-- `parse_frozen_invocation`
unfoldable pub parse_frozen_invocation : Env → String → Result Invocation
parse_frozen_invocation env raw = do payload ← loads_json env raw; from_frozen_json payload
