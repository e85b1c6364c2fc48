-- ===== src/ExecutionBinding/Load/Entries.antt =====
-- execution_binding.py: the entries of a loaded catalog are those of its document.
use mathlib.Core.List.{Memᴰ}
use ops_guard.Prelude.{
  true, false, some, List, [], ◌∷◌, ◌≡◌, sym, subst, arith, inl, inr, Bool-cases, some-injective,
}
use ops_guard.Json.{Json, Items, Fields, nil, cons, obj, lookup, keys_are}
use ops_guard.Json.Read.{
  required-ok, non_empty, non_empty-str, IsFilled, as_mapping, as_mapping-obj,
}
use ops_guard.Text.{is_hex64}
use ops_guard.Errors.{ok, chain-ok, check-ok, ok-injective}
use package.ops_guard.ExecutionBinding.{CatalogEntry, CatalogKey, has_catalog_key, matching}
use package.ops_guard.ExecutionBinding.Load.{
  entry_keys, parse_entry, has_key_of, has_script_of, parse_entries,
}
use ops_guard.Prelude.{not}

-- The object spells the entry.
pub record IsEntry (fs : Fields) (e : CatalogEntry) : Type 0 where
  pub keys : keys_are entry_keys fs ≡ true
  pub runbook_id : IsFilled "runbook_id" fs e.runbook_id
  pub revision : IsFilled "revision" fs e.revision
  pub content_hash : IsFilled "content_hash" fs e.content_hash
  pub action : IsFilled "action" fs e.action
  pub target : IsFilled "target" fs e.target
  pub script_id : IsFilled "script_id" fs e.script_id
  pub script_path : IsFilled "script_path" fs e.script_path
  pub script_sha256 : IsFilled "script_sha256" fs e.script_sha256
  pub content_hexadecimal : is_hex64 e.content_hash ≡ true
  pub script_hexadecimal : is_hex64 e.script_sha256 ≡ true

-- The items spell the entries, in order.
pub data AreEntries : Items → List CatalogEntry → Type 0 where
  done : AreEntries nil []
  more :
      {raw : Json} (fs : Fields) {e : CatalogEntry} {rest : Items} {es : List CatalogEntry}
      → raw ≡ obj fs
      → IsEntry fs e
      → AreEntries rest es
      → AreEntries (cons raw rest) (e ∷ es)

parse_entry-IsEntry :
    (raw : Json) {e : CatalogEntry}
    → parse_entry raw ≡ ok e
    → (fs : Fields) × (raw ≡ obj fs) × IsEntry fs e
unfolding parse_entry
parse_entry-IsEntry raw h = required-ok (as_mapping (some raw)) _ _ h λ fs m h1.
    check-ok (keys_are entry_keys fs) _ _ h1 λ keys h2.
      required-ok (non_empty (lookup "runbook_id" fs)) _ _ h2 λ a ra h3.
        required-ok (non_empty (lookup "revision" fs)) _ _ h3 λ b rb h4.
          required-ok (non_empty (lookup "content_hash" fs)) _ _ h4 λ c rc h5.
            required-ok (non_empty (lookup "action" fs)) _ _ h5 λ d rd h6.
              required-ok (non_empty (lookup "target" fs)) _ _ h6 λ t rt h7.
                required-ok (non_empty (lookup "script_id" fs)) _ _ h7 λ i ri h8.
                  required-ok (non_empty (lookup "script_path" fs)) _ _ h8 λ p rp h9.
                    required-ok (non_empty (lookup "script_sha256" fs)) _ _ h9 λ s rs h10.
                      check-ok (is_hex64 c) _ _ h10 λ hc h11.
                        check-ok (is_hex64 s) _ _ h11 λ hs h12. (
                          fs,
                          some-injective (as_mapping-obj (some raw) m),
                          subst (IsEntry fs) (ok-injective h12) (record {
                            keys = keys;
                            runbook_id = non_empty-str _ ra;
                            revision = non_empty-str _ rb;
                            content_hash = non_empty-str _ rc;
                            action = non_empty-str _ rd;
                            target = non_empty-str _ rt;
                            script_id = non_empty-str _ ri;
                            script_path = non_empty-str _ rp;
                            script_sha256 = non_empty-str _ rs;
                            content_hexadecimal = hc;
                            script_hexadecimal = hs;
                          }),
                        )

pub parse_entries-AreEntries :
    (its : Items) (seen : List CatalogEntry) {es : List CatalogEntry}
    → parse_entries its seen ≡ ok es
    → AreEntries its es
unfolding parse_entries
parse_entries-AreEntries nil seen h = subst (AreEntries nil) (ok-injective h) done
parse_entries-AreEntries (cons raw rest) seen h = chain-ok (parse_entry raw) _ h λ e a h1.
    check-ok (not (has_key_of e seen)) _ _ h1 λ b h2.
      check-ok (not (has_script_of e seen)) _ _ h2 λ c h3.
        chain-ok (parse_entries rest (e ∷ seen)) _ h3 λ es d h4.
          let (fs, is, entry) = parse_entry-IsEntry raw a in
          subst (AreEntries (cons raw rest)) (ok-injective h4)
            (more fs is entry (parse_entries-AreEntries rest (e ∷ seen) d))

-- Where no entry matches a key, none has it.
pub matching-none :
    (k : CatalogKey) (es : List CatalogEntry) (e : CatalogEntry)
    → matching k es ≡ []
    → Memᴰ e es
    → has_catalog_key k e ≡ false
unfolding matching
matching-none k [] e h m = elim m [ ]
matching-none k (d ∷ es) e h m = elim (Bool-cases (has_catalog_key k d)) [
  | inl a ↦ absurd (ground arith)
  | inr a ↦ elim m [
    | Memᴰ.head same ↦ subst (λ x. has_catalog_key k x ≡ false) (sym same) a
    | Memᴰ.tail n ↦ matching-none k es e (ground arith) n
  ]
]
