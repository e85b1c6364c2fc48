-- ===== src/Tests/Frozen.antt =====
-- The freeze boundary under canonical forms with sorted keys.
use Prim.Native.String.{String}
use Prim.Native.Char.{code}
use ops_guard.Prelude.{Bool, true, false, none, some, ◌==◌, ◌≡◌, refl, ltb, eqb, if◌then◌else◌}
use ops_guard.Json.{
  Json, Items, Fields, null, bool, int, float, str, arr, obj, nil, cons, end, field, lookup,
}
use ops_guard.Errors.{ok}
use ops_guard.Env.{Env}
use ops_guard.Invocation.{Invocation, to_json, canonical_bytes}
use ops_guard.Proposals.{row_to_proposal}
use ops_guard.Proposals.Open.{new_row}
use ops_guard.Proposals.Freeze.{IsDocumentOf, row_to_proposal-new_row}
use ops_guard.Tests.Fixture.{env, invocation, frozen, hash, print}

-- Whether a key stands before another one
abbrev precedes : String → String → Bool
precedes String.[] t = true
precedes (String.◌∷◌ c s) String.[] = false
precedes (String.◌∷◌ c s) (String.◌∷◌ d t) =
    if eqb (code c) (code d) then precedes s t else ltb (code c) (code d)

abbrev insert_key : String → Json → Fields → Fields
insert_key k v end = field k v end
insert_key k v (field j x fs) =
    let rest = insert_key k v fs in
    if precedes k j then field k v (field j x fs) else field j x rest

abbrev mutual
  sort_keys : Json → Json
  sort_keys null = null
  sort_keys (bool b) = bool b
  sort_keys (int n) = int n
  sort_keys (float x) = float x
  sort_keys (str s) = str s
  sort_keys (arr xs) = arr (sort_items xs)
  sort_keys (obj fs) = obj (sort_fields fs)

  sort_items : Items → Items
  sort_items nil = nil
  sort_items (cons x xs) = cons (sort_keys x) (sort_items xs)

  sort_fields : Fields → Fields
  sort_fields end = end
  sort_fields (field k v fs) = insert_key k (sort_keys v) (sort_fields fs)

-- The fixture's invocation as it is read back: its keys in order
abbrev document : Fields
document = field "action" (str "restart") (
    field "arguments" (obj (field "force" (bool true) end)) (
      field "preconditions"
        (arr (cons (obj (field "expected" (str "up") (field "name" (str "service") end))) nil))
        (field "runbook_revision_hash" (str "rev-1") (field "target" (str "web-1") end))))

abbrev reread : Invocation
reread = record {
  action = "restart";
  target = "web-1";
  arguments = field "force" (bool true) end;
  preconditions = cons (obj (field "expected" (str "up") (field "name" (str "service") end))) nil;
  runbook_revision_hash = "rev-1";
}

abbrev bytes : String
bytes = print (obj document)

-- Canonical forms have their keys in order, and the reader knows one text.
abbrev sorting : Env
sorting = record env {
  canonicalize = λ j. some (print (sort_keys j));
  loads = λ s. if s == bytes then some (obj document) else none;
}

run_freeze : canonical_bytes sorting invocation ≡ ok bytes
unfolding ops_guard.Env.canonicalize_json ops_guard.Env.loads_json
    ops_guard.Invocation.canonical_bytes ops_guard.Invocation.to_json
    ops_guard.Invocation.reject_unrepresentable_numbers
run_freeze = refl

document-IsDocumentOf : IsDocumentOf sorting document reread
unfolding ops_guard.Invocation.to_json ops_guard.Json.lookup ops_guard.Json.keys_are
document-IsDocumentOf = record {
  keys = refl;
  action = refl;
  target = refl;
  arguments = refl;
  preconditions = refl;
  revision = refl;
  unordered = refl;
}

row_to_proposal-new_row_example :
    (row_to_proposal sorting (new_row sorting "p-1" bytes (hash bytes) "t-1" 50 200)
      ≡ ok (record (frozen none) { invocation = reread; invocation_digest = hash bytes }))
    × (canonical_bytes sorting reread ≡ ok bytes)
row_to_proposal-new_row_example =
    row_to_proposal-new_row sorting invocation reread document "p-1" "t-1" bytes 50 200 run_freeze
      refl document-IsDocumentOf
