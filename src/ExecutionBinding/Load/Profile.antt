-- ===== src/ExecutionBinding/Load/Profile.antt =====
-- execution_binding.py: what a loaded catalog holds, and that it resolves without ambiguity.
use mathlib.Core.List.{Memᴰ}
use ops_guard.Prelude.{
  ℕ, ◌≤◌, String, Bool, true, false, ◌&&◌, Option, some, List, [], ◌∷◌, ◌==◌, ◌≡◌, refl, ap, subst,
  arith, leb, leb→le, inl, inr, Bool-cases, Option-cases, eq_iff,
}
use ops_guard.Json.{Json, Fields, lookup, keys_are, as_text}
use ops_guard.Json.Read.{required-ok, as_mapping, as_list, as_nat, non_empty, non_empty-str}
use ops_guard.Text.{is_hex64}
use ops_guard.Errors.{ok, err, chain-ok, check-ok, ok-injective, binding_resolution}
use ops_guard.Env.{Env}
use package.ops_guard.ExecutionBinding.{
  CatalogEntry, RunnerProfile, Catalog, CatalogKey, has_catalog_key, template, select, matching,
  resolve_binding,
}
use package.ops_guard.ExecutionBinding.Load.{
  profile_keys, looks_absolute, starts_with_executable, argv_of, allowlist_of, number_at,
  timeout_at, output_limit_at, hex_text, parse_profile, parse_entries, is_text,
  load_execution_catalog,
}
use package.ops_guard.ExecutionBinding.Load.Entries.{
  AreEntries, parse_entries-AreEntries, matching-none,
}
use ops_guard.Json.{arr, obj, Items}
use ops_guard.Json.Read.{as_mapping-obj, as_list-arr}
use ops_guard.Prelude.{some-injective}
use package.ops_guard.ExecutionBinding.Load.Unique.{
  IsUnique, parse_entries-IsUnique, matching_unique,
}

-- The bounds of a runner profile, and the form of its command
pub record IsProfile (env : Env) (p : RunnerProfile) : Type 0 where
  pub named : (p.profile_id == "") ≡ false
  pub lasting : 1 ≤ p.timeout_seconds
  pub bounded : p.timeout_seconds ≤ 3600
  pub roomy : 1024 ≤ p.output_limit
  pub arguments : List String
  pub command : p.argv ≡ p.executable ∷ arguments
  pub absolute : looks_absolute env p.executable ≡ true
  pub hexadecimal : is_hex64 p.executable_sha256 ≡ true

number_at-within :
    (fs : Fields) (key : String) (within : ℕ → Bool) (message : String) {n : ℕ}
    → number_at fs key within message ≡ ok n
    → within n ≡ true
number_at-within fs key within message h = elim (Option-cases (as_nat (lookup key fs))) [
  | inl a ↦ absurd (ground arith)
  | inr (m, a) ↦ elim (Bool-cases (within m)) [
    | inl b ↦ ground arith
    | inr b ↦ absurd (ground arith)
  ]
]

command_starts :
    (executable : String) (argv : List String)
    → starts_with_executable executable argv ≡ true
    → (rest : List String) × (argv ≡ executable ∷ rest)
command_starts executable [] h = absurd (ground arith)
command_starts executable (first ∷ rest) h = (rest, ap (λ x. x ∷ rest) ((eq_iff _ _).0 h))

hex_text-hex : (raw : Option Json) {s : String} → hex_text raw ≡ some s → is_hex64 s ≡ true
hex_text-hex raw h = elim (Option-cases (as_text raw)) [
  | inl a ↦ absurd (ground arith)
  | inr (s, a) ↦ elim (Bool-cases (is_hex64 s)) [
    | inl b ↦ ground arith
    | inr b ↦ absurd (ground arith)
  ]
]

timeout_at-within : (fs : Fields) {n : ℕ} → timeout_at fs ≡ ok n → (1 ≤ n) × (n ≤ 3600)
unfolding timeout_at
timeout_at-within fs {n} h =
    let both = number_at-within fs "timeout_seconds" (λ n. leb 1 n && leb n 3600) _ h in
    ground (arith, both)

output_limit_at-within : (fs : Fields) {n : ℕ} → output_limit_at fs ≡ ok n → 1024 ≤ n
unfolding output_limit_at
output_limit_at-within fs h =
    leb→le 1024 _ (number_at-within fs "output_limit" (λ n. leb 1024 n) _ h)

-- The entry that a key matches has the key.
matching-key :
    (k : CatalogKey) (es : List CatalogEntry) (e : CatalogEntry)
    → matching k es ≡ e ∷ []
    → has_catalog_key k e ≡ true
unfolding matching
matching-key k [] e h = absurd (ground arith)
matching-key k (d ∷ es) e h = elim (Bool-cases (has_catalog_key k d)) [
  | inl a ↦ let is : d ≡ e = ground arith in subst (λ x. has_catalog_key k x ≡ true) is a
  | inr a ↦ matching-key k es e (ground arith)
]

parse_profile-IsProfile :
    (env : Env) (raw : Option Json) {p : RunnerProfile}
    → parse_profile env raw ≡ ok p
    → IsProfile env p
unfolding parse_profile
parse_profile-IsProfile env raw h = required-ok (as_mapping raw) _ _ h λ fs a h1.
    check-ok (keys_are profile_keys fs) _ _ h1 λ b h2.
      required-ok (non_empty (lookup "profile_id" fs)) _ _ h2 λ id c h3.
        required-ok (non_empty (lookup "executable" fs)) _ _ h3 λ executable d h4.
          required-ok (non_empty (lookup "working_directory" fs)) _ _ h4 λ directory e h5.
            required-ok (hex_text (lookup "executable_sha256" fs)) _ _ h5 λ hash f h6.
              required-ok (argv_of (lookup "argv" fs)) _ _ h6 λ argv g h7.
                check-ok (looks_absolute env executable) _ _ h7 λ i h8.
                  check-ok (starts_with_executable executable argv) _ _ h8 λ j h9.
                    required-ok (allowlist_of (lookup "env_allowlist" fs)) _ _ h9 λ allowed k h10.
                      chain-ok (timeout_at fs) _ h10 λ timeout l h11.
                        chain-ok (output_limit_at fs) _ h11 λ limit m h12.
                          let (lasting, bounded) = timeout_at-within fs l in
                          let (arguments, command) = command_starts executable argv j in
                          subst (IsProfile env) (ok-injective h12) (record {
                            named = (non_empty-str (lookup "profile_id" fs) c).1;
                            lasting = lasting;
                            bounded = bounded;
                            roomy = output_limit_at-within fs m;
                            arguments = arguments;
                            command = command;
                            absolute = i;
                            hexadecimal = hex_text-hex (lookup "executable_sha256" fs) f;
                          })

-- What a loaded catalog promises: the entries of the document and its profile, in its bounds, and
-- for each key one entry at most
pub record IsCatalog (env : Env) (document : Json) (c : Catalog) : Type 0 where
  pub fields : Fields
  pub is_mapping : document ≡ obj fields
  pub profile : RunnerProfile
  pub only : c.profiles ≡ profile ∷ []
  pub read : parse_profile env (lookup "runner_profile" fields) ≡ ok profile
  pub is_profile : IsProfile env profile
  pub items : Items
  pub listed : lookup "entries" fields ≡ some (arr items)
  pub entries : AreEntries items c.entries
  pub unique : IsUnique [] c.entries

-- A catalog is loaded only with exactly one runner profile, whose timeout is between 1 and 3600
-- seconds, whose output limit is at least 1024, whose command starts with its executable, by an
-- absolute path and with a digest of 64 hexadecimal characters; its entries are those of the
-- document, in order, and no two of them share a key or a script id.
pub load_execution_catalog-IsCatalog :
    (env : Env) (document : Json) (c : Catalog)
    → load_execution_catalog env document ≡ ok c
    → IsCatalog env document c
unfolding load_execution_catalog
load_execution_catalog-IsCatalog env document c h =
    required-ok (as_mapping (some document)) _ _ h λ fs a h1.
      check-ok (keys_are ("schema_version" ∷ "runner_profile" ∷ "entries" ∷ []) fs) _ _ h1 λ b h2.
        check-ok (is_text "ops-guard-execution-catalog-v1" (as_text (lookup "schema_version" fs))) _
          _ h2
          λ d h3. chain-ok (parse_profile env (lookup "runner_profile" fs)) _ h3 λ p e h4.
            required-ok (as_list (lookup "entries" fs)) _ _ h4 λ list f h5.
              chain-ok (parse_entries list []) _ h5 λ entries g h6.
                subst (IsCatalog env document) (ok-injective h6) (record {
                  fields = fs;
                  is_mapping = some-injective (as_mapping-obj (some document) a);
                  profile = p;
                  only = refl;
                  read = e;
                  is_profile = parse_profile-IsProfile env (lookup "runner_profile" fs) e;
                  items = list;
                  listed = as_list-arr _ f;
                  entries = parse_entries-AreEntries list [] g;
                  unique = parse_entries-IsUnique list [] g;
                })

-- What a key of a loaded catalog resolves to: nothing, where no entry has it, or the binding of an
-- entry that has it, with the catalog's profile
pub data Resolves (env : Env) (k : CatalogKey) (c : Catalog) : Type 0 where
  unmapped :
      ((e : CatalogEntry) → Memᴰ e c.entries → has_catalog_key k e ≡ false)
      → resolve_binding env c k
        ≡ err (binding_resolution "no execution catalog entry maps the invocation")
      → Resolves env k c
  mapped :
      (e : CatalogEntry) (p : RunnerProfile)
      → Memᴰ e c.entries
      → has_catalog_key k e ≡ true
      → c.profiles ≡ p ∷ []
      → resolve_binding env c k ≡ template env e p
      → Resolves env k c

-- A loaded catalog has the entries and the one bounded profile of its document, and a key resolves
-- in it to the binding of the entry that has it, with that profile, or no entry has it; it is never
-- ambiguous.
pub load-resolve :
    (env : Env) (document : Json) (c : Catalog) (k : CatalogKey)
    → load_execution_catalog env document ≡ ok c
    → IsCatalog env document c × Resolves env k c
unfolding resolve_binding select
load-resolve env document c k h =
    let i = load_execution_catalog-IsCatalog env document c h in
    (
      i,
      elim (matching_unique k [] c.entries i.unique) [
        | inl n ↦ unmapped (λ e m. matching-none k c.entries e n m) (rw n refl)
        | inr (e, m, n) ↦
            mapped e i.profile m (matching-key k c.entries e n) i.only (rw (n, i.only) refl)
      ],
    )
