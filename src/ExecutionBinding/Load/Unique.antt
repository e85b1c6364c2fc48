-- ===== src/ExecutionBinding/Load/Unique.antt =====
-- execution_binding.py: the keys and the script ids of a loaded catalog are unique.
use mathlib.Core.List.{Memᴰ}
use ops_guard.Prelude.{
  true, false, not, List, [], ◌∷◌, ◌≡◌, refl, ap, subst, arith, ◌⊎◌, inl, inr, Bool-cases, eq_iff,
  not-true,
}
use ops_guard.Json.{Items, nil, cons}
use ops_guard.Errors.{ok, chain-ok, check-ok, ok-injective}
use package.ops_guard.ExecutionBinding.{CatalogEntry, CatalogKey, has_catalog_key, matching}
use package.ops_guard.ExecutionBinding.Load.{
  parse_entry, key_of, has_key_of, has_script_of, parse_entries,
}

-- No entry has the key or the script id of an earlier one.
abbrev pub IsUnique : List CatalogEntry → List CatalogEntry → Type 0
IsUnique seen [] = Unit {0}
IsUnique seen (e ∷ es) =
    (has_key_of e seen ≡ false) × (has_script_of e seen ≡ false) × IsUnique (e ∷ seen) es

pub parse_entries-IsUnique :
    (its : Items) (seen : List CatalogEntry) {es : List CatalogEntry}
    → parse_entries its seen ≡ ok es
    → IsUnique seen es
unfolding parse_entries
parse_entries-IsUnique nil seen h = subst (IsUnique seen) (ok-injective h) tt
parse_entries-IsUnique (cons raw rest) seen h = chain-ok (parse_entry raw) _ h λ e a h1.
    check-ok (not (has_key_of e seen)) _ _ h1 λ b h2.
      check-ok (not (has_script_of e seen)) _ _ h2 λ c h3.
        chain-ok (parse_entries rest (e ∷ seen)) _ h3 λ es d h4.
          subst (IsUnique seen) (ok-injective h4)
            (not-true _ b, not-true _ c, parse_entries-IsUnique rest (e ∷ seen) d)

-- Two entries with one key have the key of each other.
same_key :
    (k : CatalogKey) (d e : CatalogEntry)
    → has_catalog_key k d ≡ true
    → has_catalog_key k e ≡ true
    → has_catalog_key (key_of e) d ≡ true
same_key k d e h g = ground (
  arith,
  eq_iff d.runbook_id k.runbook_id,
  eq_iff e.runbook_id k.runbook_id,
  eq_iff d.runbook_id e.runbook_id,
  eq_iff d.revision k.revision,
  eq_iff e.revision k.revision,
  eq_iff d.revision e.revision,
  eq_iff d.content_hash k.content_hash,
  eq_iff e.content_hash k.content_hash,
  eq_iff d.content_hash e.content_hash,
  eq_iff d.action k.action,
  eq_iff e.action k.action,
  eq_iff d.action e.action,
  eq_iff d.target k.target,
  eq_iff e.target k.target,
  eq_iff d.target e.target,
)

key-mem :
    (k : CatalogKey) (seen : List CatalogEntry) (d e : CatalogEntry)
    → Memᴰ d seen
    → has_catalog_key k d ≡ true
    → has_catalog_key k e ≡ true
    → has_key_of e seen ≡ true
unfolding has_key_of
key-mem k [] d e m h g = elim m [ ]
key-mem k (c ∷ seen) d e (Memᴰ.head is) h g =
    let same = same_key k c e (subst (λ x. has_catalog_key k x ≡ true) is h) g in
    ground (arith, same)
key-mem k (c ∷ seen) d e (Memᴰ.tail m) h g = ground (arith, key-mem k seen d e m h g)

-- The key of an earlier entry matches none.
matching-nil :
    (k : CatalogKey) (seen es : List CatalogEntry) (d : CatalogEntry)
    → Memᴰ d seen
    → has_catalog_key k d ≡ true
    → IsUnique seen es
    → matching k es ≡ []
unfolding matching
matching-nil k seen [] d m h u = refl
matching-nil k seen (e ∷ es) d m h (a, b, u) = elim (Bool-cases (has_catalog_key k e)) [
  | inl g ↦ absurd (ground (arith, key-mem k seen d e m h g))
  | inr g ↦ rw g (matching-nil k (e ∷ seen) es d (Memᴰ.tail m) h u)
]

-- A key matches no entry, or one of them alone.
pub matching_unique :
    (k : CatalogKey) (seen es : List CatalogEntry)
    → IsUnique seen es
    → (matching k es ≡ []) ⊎ ((e : CatalogEntry) × Memᴰ e es × (matching k es ≡ e ∷ []))
unfolding matching
matching_unique k seen [] u = inl refl
matching_unique k seen (e ∷ es) (a, b, u) = elim (Bool-cases (has_catalog_key k e)) [
  | inl g ↦ inr (
    e,
    Memᴰ.head refl,
    rw g (ap (λ l. e ∷ l) (matching-nil k (e ∷ seen) es e (Memᴰ.head refl) g u)),
  )
  | inr g ↦ elim (matching_unique k (e ∷ seen) es u) [
    | inl n ↦ inl (rw g n)
    | inr (d, m, n) ↦ inr (d, Memᴰ.tail m, rw g n)
  ]
]
