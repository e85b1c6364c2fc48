-- ===== src/ExecutionBinding/Load.antt =====
-- execution_binding.py: `load_execution_catalog`, which validates the operator's catalog document.
pub mod Entries
pub mod Unique
pub mod Profile
use ops_guard.Prelude.{
  ℕ, suc, ◌+◌, String, Bool, true, false, not, ◌&&◌, ◌||◌, Option, none, some, List, [], ◌∷◌, ◌==◌,
  ◌⊕◌, leb, if◌then◌else◌,
}
use ops_guard.Json.{Json, Items, Fields, nil, cons, lookup, keys_are, as_text}
use ops_guard.Json.Read.{non_empty, as_list, as_mapping, as_nat, as_texts, require}
use ops_guard.Text.{codes, is_hex64, starts_with}
use ops_guard.Errors.{Error, Result, ok, err, ◌>>=◌, ◌>>◌, check, catalog_error}
use ops_guard.Env.{Env}
use package.ops_guard.ExecutionBinding.{
  CatalogEntry, RunnerProfile, Catalog, CatalogKey, has_catalog_key,
}

-- A text of the profile or of an entry
abbrev text_at : Fields → String → String → Result String
text_at fs place key =
    require (non_empty (lookup key fs))
      (catalog_error (place ⊕ "." ⊕ key ⊕ " must be a non-empty string"))

abbrev profile_keys : List String
profile_keys =
    "profile_id" ∷ "executable" ∷ "executable_sha256" ∷ "argv" ∷ "working_directory"
    ∷ "env_allowlist" ∷ "timeout_seconds" ∷ "output_limit" ∷ []

abbrev profile_shape : Error
profile_shape = catalog_error "runner_profile keys do not match the schema"

abbrev argv_shape : Error
argv_shape = catalog_error "runner_profile.argv must be a non-empty list of strings"

-- `os.path.isabs(path) or path.startswith("/")`
abbrev looks_absolute : Env → String → Bool
looks_absolute env path = env.isabs path || starts_with (b'/' ∷ []) (codes path)

-- `argv[0] == executable`, where an empty list was refused
abbrev starts_with_executable : String → List String → Bool
starts_with_executable executable [] = false
starts_with_executable executable (first ∷ rest) = first == executable

-- `not isinstance(argv, list) or not argv or not all(…)`
abbrev argv_of : Option Json → Option (List String)
argv_of raw = elim (as_list raw) [
  | none ↦ none
  | some list ↦ elim (as_texts list) [
    | none ↦ none
    | some texts ↦ elim texts [ [] ↦ none | first ∷ rest ↦ some (first ∷ rest) ]
  ]
]

abbrev allowlist_of : Option Json → Option (List String)
allowlist_of raw = elim (as_list raw) [ none ↦ none | some list ↦ as_texts list ]

-- A number of the profile in a range
abbrev number_at : Fields → String → (ℕ → Bool) → String → Result ℕ
number_at fs key within message = elim (as_nat (lookup key fs)) [
  | none ↦ err (catalog_error message)
  | some n ↦ if within n then ok n else err (catalog_error message)
]

timeout_at : Fields → Result ℕ
timeout_at fs =
    number_at fs "timeout_seconds" (λ n. leb 1 n && leb n 3600)
      "runner_profile.timeout_seconds must be an integer 1..3600"

output_limit_at : Fields → Result ℕ
output_limit_at fs =
    number_at fs "output_limit" (λ n. leb 1024 n)
      "runner_profile.output_limit must be an integer >= 1024"

abbrev hex_text : Option Json → Option String
hex_text raw = elim (as_text raw) [ none ↦ none | some s ↦ if is_hex64 s then some s else none ]

-- The `runner_profile` of the document. The code makes the check of `argv` twice.
unfoldable pub parse_profile : Env → Option Json → Result RunnerProfile
unfolding timeout_at output_limit_at
parse_profile env raw = do
  fs ← require (as_mapping raw) profile_shape
  check (keys_are profile_keys fs) profile_shape
  profile_id ← text_at fs "runner_profile" "profile_id"
  executable ← text_at fs "runner_profile" "executable"
  working_directory ← text_at fs "runner_profile" "working_directory"
  sha256 ←
      require (hex_text (lookup "executable_sha256" fs))
        (catalog_error "runner_profile.executable_sha256 must be 64 hex characters")
  argv ← require (argv_of (lookup "argv" fs)) argv_shape
  check (looks_absolute env executable)
      (catalog_error "runner_profile.executable must be an absolute path")
  check (starts_with_executable executable argv)
      (catalog_error "runner_profile.argv[0] must equal the profile executable (ADR 0012)")
  allowlist ←
      require (allowlist_of (lookup "env_allowlist" fs))
        (catalog_error "runner_profile.env_allowlist must be a list of strings")
  timeout ← timeout_at fs
  output_limit ← output_limit_at fs
  ok (record {
    profile_id = profile_id;
    executable = executable;
    executable_sha256 = sha256;
    argv = argv;
    working_directory = working_directory;
    env_allowlist = allowlist;
    timeout_seconds = timeout;
    output_limit = output_limit;
  })

abbrev entry_keys : List String
entry_keys =
    "runbook_id" ∷ "revision" ∷ "content_hash" ∷ "action" ∷ "target" ∷ "script_id" ∷ "script_path"
    ∷ "script_sha256" ∷ []

abbrev entry_shape : Error
entry_shape = catalog_error "entries: the keys do not match the entry schema"

-- One of the `entries`, before it is compared with the others
unfoldable pub parse_entry : Json → Result CatalogEntry
parse_entry raw = do
  fs ← require (as_mapping (some raw)) entry_shape
  check (keys_are entry_keys fs) entry_shape
  runbook_id ← text_at fs "entries" "runbook_id"
  revision ← text_at fs "entries" "revision"
  content_hash ← text_at fs "entries" "content_hash"
  action ← text_at fs "entries" "action"
  target ← text_at fs "entries" "target"
  script_id ← text_at fs "entries" "script_id"
  script_path ← text_at fs "entries" "script_path"
  script_sha256 ← text_at fs "entries" "script_sha256"
  check (is_hex64 content_hash) (catalog_error "entries: content_hash must be 64 hex characters")
  check (is_hex64 script_sha256) (catalog_error "entries: script_sha256 must be 64 hex characters")
  ok (record {
    runbook_id = runbook_id;
    revision = revision;
    content_hash = content_hash;
    action = action;
    target = target;
    script_id = script_id;
    script_path = script_path;
    script_sha256 = script_sha256;
  })

-- `CatalogEntry.key`
abbrev pub key_of : CatalogEntry → CatalogKey
key_of e = record {
  runbook_id = e.runbook_id;
  revision = e.revision;
  content_hash = e.content_hash;
  action = e.action;
  target = e.target;
}

-- `key in entries` and `script_id in script_ids`
unfoldable pub has_key_of : CatalogEntry → List CatalogEntry → Bool
has_key_of e [] = false
has_key_of e (d ∷ ds) = has_catalog_key (key_of e) d || has_key_of e ds

unfoldable pub has_script_of : CatalogEntry → List CatalogEntry → Bool
has_script_of e [] = false
has_script_of e (d ∷ ds) = d.script_id == e.script_id || has_script_of e ds

-- The loop over the entries, with those that it has accepted
unfoldable pub parse_entries : Items → List CatalogEntry → Result (List CatalogEntry)
unfolding parse_entry has_key_of has_script_of
parse_entries nil seen = ok []
parse_entries (cons raw rest) seen = do
  entry ← parse_entry raw
  check (not (has_key_of entry seen)) (catalog_error "entries: duplicates an existing catalog key")
  check (not (has_script_of entry seen))
      (catalog_error ("entries: reuses script_id " ⊕ entry.script_id))
  entries ← parse_entries rest (entry ∷ seen)
  ok (entry ∷ entries)

abbrev is_text : String → Option String → Bool
is_text expected none = false
is_text expected (some s) = s == expected

-- `load_execution_catalog`
unfoldable pub load_execution_catalog : Env → Json → Result Catalog
unfolding parse_profile parse_entries
load_execution_catalog env raw = do
  document ←
      require (as_mapping (some raw)) (catalog_error "execution catalog must be a JSON object")
  check (keys_are ("schema_version" ∷ "runner_profile" ∷ "entries" ∷ []) document)
      (catalog_error "execution catalog keys do not match the schema")
  check (is_text "ops-guard-execution-catalog-v1" (as_text (lookup "schema_version" document)))
      (catalog_error "catalog schema_version must be 'ops-guard-execution-catalog-v1'")
  profile ← parse_profile env (lookup "runner_profile" document)
  list ← require (as_list (lookup "entries" document)) (catalog_error "entries must be a list")
  entries ← parse_entries list []
  ok (record { entries = entries; profiles = profile ∷ [] })
