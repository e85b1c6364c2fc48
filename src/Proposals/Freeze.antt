-- ===== src/Proposals/Freeze.antt =====
-- proposals.py and invocation.py: what is frozen is what is resolved.
use ops_guard.Prelude.{
  ℕ, String, true, none, some, ◌==◌, ◌≡◌, refl, sym, ◌∙◌, ap, arith, subst, eq_refl, eq_iff,
  Bool-cases, inl, inr,
}
use ops_guard.Json.{Json, Fields, obj, arr, str, end, field, lookup, keys_are}
use ops_guard.Errors.{ok, chain-ok}
use ops_guard.World.Steps.{ok-injective}
use ops_guard.Env.{Env, canonicalize_json, loads_json}
use ops_guard.Invocation.{
  Invocation, to_json, from_frozen_json, parse_frozen_invocation, canonical_bytes, invocation_keys,
  reject_unrepresentable_numbers, reject_fields, reject_items,
}
use ops_guard.Proposals.Open.{new_row}
use package.ops_guard.Proposals.{row_to_proposal}

-- What an object of representable numbers holds is representable.
reject_fields-lookup :
    (k : String) (fs : Fields) {v : Json}
    → reject_fields fs ≡ ok tt
    → lookup k fs ≡ some v
    → reject_unrepresentable_numbers v ≡ ok tt
unfolding reject_unrepresentable_numbers lookup
reject_fields-lookup k end h is = absurd (ground arith)
reject_fields-lookup k (field j x fs) {v} h is =
    chain-ok (reject_unrepresentable_numbers x) _ h λ u p rest. elim (Bool-cases (j == k)) [
      | inl hit ↦
          let same : x ≡ v = ground arith in
          subst (λ y. reject_unrepresentable_numbers y ≡ ok tt) same p
      | inr miss ↦ reject_fields-lookup k fs {v = v} rest (ground arith)
    ]

-- The document that the JSON reader gives back for canonical bytes: an object with the keys of an
-- invocation, in some order, that has the same canonical form as `i` in the order of `to_json`.
pub record IsDocumentOf (env : Env) (document : Fields) (i : Invocation) : Type 0 where
  pub keys : keys_are invocation_keys document ≡ true
  pub action : lookup "action" document ≡ some (str i.action)
  pub target : lookup "target" document ≡ some (str i.target)
  pub arguments : lookup "arguments" document ≡ some (obj i.arguments)
  pub preconditions : lookup "preconditions" document ≡ some (arr i.preconditions)
  pub revision : lookup "runbook_revision_hash" document ≡ some (str i.runbook_revision_hash)
  pub unordered : env.canonicalize (to_json i) ≡ env.canonicalize (obj document)

module _ (env : Env) (document : Fields) (j : Invocation) (is : IsDocumentOf env document j) where
  from_frozen_json-document : from_frozen_json (obj document) ≡ ok j
  unfolding from_frozen_json
  from_frozen_json-document =
      rw (is.keys, is.action, is.target, is.arguments, is.preconditions, is.revision) refl

  to_json-representable :
      reject_fields document ≡ ok tt → reject_unrepresentable_numbers (to_json j) ≡ ok tt
  unfolding to_json reject_unrepresentable_numbers
  to_json-representable h =
      let a : reject_fields j.arguments ≡ ok tt =
        reject_fields-lookup "arguments" document h is.arguments in
      let p : reject_items j.preconditions ≡ ok tt =
        reject_fields-lookup "preconditions" document h is.preconditions in
      rw (a, p) refl

-- What `canonical_bytes` has checked when it returns
record IsCanonical (env : Env) (i : Invocation) (bytes : String) : Type 0 where
  reparsed : Json
  read : loads_json env bytes ≡ ok reparsed
  representable : reject_unrepresentable_numbers reparsed ≡ ok tt
  again : canonicalize_json env reparsed ≡ ok bytes

canonical_bytes-IsCanonical :
    (env : Env) (i : Invocation) {bytes : String}
    → canonical_bytes env i ≡ ok bytes
    → IsCanonical env i bytes
unfolding canonical_bytes
canonical_bytes-IsCanonical env i {bytes} h =
    chain-ok (reject_unrepresentable_numbers (to_json i)) _ h λ _ p h1.
      chain-ok (canonicalize_json env (to_json i)) _ h1 λ frozen q h2.
        chain-ok (loads_json env frozen) _ h2 λ reparsed r h3.
          chain-ok (reject_unrepresentable_numbers reparsed) _ h3 λ _ s h4.
            chain-ok (canonicalize_json env reparsed) _ h4 λ again t h5.
              let (same, is) : (again == frozen ≡ true) × (frozen ≡ bytes) = ground arith in
              let back : again ≡ bytes = (eq_iff again frozen).0 same ∙ is in
              record {
                reparsed = reparsed;
                read = ap (loads_json env) (sym is) ∙ r;
                representable = s;
                again = t ∙ ap ok back;
              }

module _ (env : Env) where
  canonicalize_json-same :
      (a b : Json)
      → env.canonicalize a ≡ env.canonicalize b
      → canonicalize_json env a ≡ canonicalize_json env b
  unfolding canonicalize_json
  canonicalize_json-same a b h = rw (h, canonicalize_json) refl

  loads_json-read :
      (bytes : String) (a : Json) → env.loads bytes ≡ some a → loads_json env bytes ≡ ok a
  unfolding loads_json
  loads_json-read bytes a h = ground arith

  -- The invocation that is read back freezes to the bytes that it was read from.
  refreezes :
      (document : Fields) (j : Invocation) (bytes : String)
      → IsDocumentOf env document j
      → loads_json env bytes ≡ ok (obj document)
      → reject_fields document ≡ ok tt
      → canonicalize_json env (obj document) ≡ ok bytes
      → canonical_bytes env j ≡ ok bytes
  unfolding canonical_bytes reject_unrepresentable_numbers
  refreezes document j bytes is read numbers form =
      rw
        (
          to_json-representable env document j is numbers,
          canonicalize_json-same (to_json j) (obj document) is.unordered,
          form,
          read,
          numbers,
          form,
          eq_refl bytes,
        )
        refl

  parse-document :
      (document : Fields) (j : Invocation) (bytes : String)
      → IsDocumentOf env document j
      → loads_json env bytes ≡ ok (obj document)
      → parse_frozen_invocation env bytes ≡ ok j
  unfolding parse_frozen_invocation
  parse-document document j bytes is read = rw read (from_frozen_json-document env document j is)

  -- The row that `open_proposal` writes for an invocation resolves: to the invocation that the stored
  -- bytes are read back as, which freezes to the same bytes. The provisos are that the JSON reader
  -- gives back, for the canonical bytes, an object with the keys of an invocation, in any order, and
  -- values of the right types; and that the canonical form does not depend on the order of keys.
  pub row_to_proposal-new_row :
      (i j : Invocation) (document : Fields) (id token bytes : String) (created expires : ℕ)
      → canonical_bytes env i ≡ ok bytes
      → env.loads bytes ≡ some (obj document)
      → IsDocumentOf env document j
      → (row_to_proposal env (new_row env id bytes (env.sha256 bytes) token created expires)
          ≡ ok (record {
            proposal_id = id;
            invocation = j;
            invocation_digest = env.sha256 bytes;
            token_digest = env.hmac_sha256 env.token_key token;
            created_at = created;
            expires_at = expires;
            consumed_at = none;
          }))
        × (canonical_bytes env j ≡ ok bytes)
  unfolding row_to_proposal reject_unrepresentable_numbers
  row_to_proposal-new_row i j document id token bytes created expires frozen loaded is =
      let c = canonical_bytes-IsCanonical env i frozen in
      let read : loads_json env bytes ≡ ok (obj document) =
        loads_json-read bytes (obj document) loaded in
      let same : c.reparsed ≡ obj document = ok-injective (sym c.read ∙ read) in
      let again : canonical_bytes env j ≡ ok bytes =
        refreezes document j bytes is read
          (subst (λ x. reject_unrepresentable_numbers x ≡ ok tt) same c.representable)
          (subst (λ x. canonicalize_json env x ≡ ok bytes) same c.again) in
      (
        ground (arith, parse-document document j bytes is read, again, eq_refl (env.sha256 bytes)),
        again,
      )
