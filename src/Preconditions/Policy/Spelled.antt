-- ===== src/Preconditions/Policy/Spelled.antt =====
-- preconditions.py: the observer bindings of a loaded policy are those of its document.
use ops_guard.Prelude.{
  ℕ, pos, not, Option, some, none, List, [], ◌∷◌, ◌≡◌, subst, arith, some-injective,
}
use ops_guard.Json.{Json, Items, Fields, nil, cons, int, obj, lookup, keys_are}
use ops_guard.Json.Read.{
  required-ok, non_empty, non_empty-str, IsFilled, as_mapping, as_mapping-obj, as_nat,
}
use ops_guard.Errors.{ok, chain-ok, check-ok, ok-injective}
use package.ops_guard.Preconditions.{ObserverBinding, Registry}
use package.ops_guard.Preconditions.Default.{validate_settings}
use package.ops_guard.Preconditions.Policy.{binding_keys, parse_binding, has_key_of, parse_bindings}

-- The object spells the binding.
pub record IsBinding (fs : Fields) (b : ObserverBinding) : Type 0 where
  pub runbook_id : IsFilled "runbook_id" fs b.runbook_id
  pub revision : IsFilled "revision" fs b.revision
  pub content_hash : IsFilled "content_hash" fs b.content_hash
  pub observer_id : IsFilled "observer_id" fs b.observer_id
  pub precondition_index : lookup "precondition_index" fs ≡ some (int (pos b.precondition_index))
  pub settings : lookup "settings" fs ≡ some (obj b.settings)

-- The items spell the bindings, in order.
pub data AreSpelled : Items → List ObserverBinding → Type 0 where
  done : AreSpelled nil []
  more :
      {raw : Json} (fs : Fields) {b : ObserverBinding} {rest : Items} {bs : List ObserverBinding}
      → raw ≡ obj fs
      → IsBinding fs b
      → AreSpelled rest bs
      → AreSpelled (cons raw rest) (b ∷ bs)

as_nat-int : (o : Option Json) {n : ℕ} → as_nat o ≡ some n → o ≡ some (int (pos n))
unfolding as_nat
as_nat-int (some (int (pos m))) h = ground arith
as_nat-int none h = absurd (ground arith)
as_nat-int (some _) h = absurd (ground arith)

parse_binding-IsBinding :
    (raw : Json) {b : ObserverBinding}
    → parse_binding raw ≡ ok b
    → (fs : Fields) × (raw ≡ obj fs) × IsBinding fs b
unfolding parse_binding
parse_binding-IsBinding raw h = required-ok (as_mapping (some raw)) _ _ h λ fs m h1.
    check-ok (keys_are binding_keys fs) _ _ h1 λ keys h2.
      required-ok (non_empty (lookup "runbook_id" fs)) _ _ h2 λ a ra h3.
        required-ok (non_empty (lookup "revision" fs)) _ _ h3 λ r rr h4.
          required-ok (non_empty (lookup "content_hash" fs)) _ _ h4 λ c rc h5.
            required-ok (non_empty (lookup "observer_id" fs)) _ _ h5 λ o ro h6.
              required-ok (as_nat (lookup "precondition_index" fs)) _ _ h6 λ n rn h7.
                required-ok (as_mapping (lookup "settings" fs)) _ _ h7 λ s rs h8. (
                  fs,
                  some-injective (as_mapping-obj (some raw) m),
                  subst (IsBinding fs) (ok-injective h8) (record {
                    runbook_id = non_empty-str _ ra;
                    revision = non_empty-str _ rr;
                    content_hash = non_empty-str _ rc;
                    observer_id = non_empty-str _ ro;
                    precondition_index = as_nat-int _ rn;
                    settings = as_mapping-obj _ rs;
                  }),
                )

pub parse_bindings-AreSpelled :
    (registry : Registry) (its : Items) (seen : List ObserverBinding) {bs : List ObserverBinding}
    → parse_bindings registry its seen ≡ ok bs
    → AreSpelled its bs
unfolding parse_bindings
parse_bindings-AreSpelled registry nil seen h = subst (AreSpelled nil) (ok-injective h) done
parse_bindings-AreSpelled registry (cons raw rest) seen h =
    chain-ok (parse_binding raw) _ h λ b p h1. check-ok (not (has_key_of b seen)) _ _ h1 λ q h2.
      chain-ok (validate_settings registry b.observer_id b.settings) _ h2 λ _ r h3.
        chain-ok (parse_bindings registry rest (b ∷ seen)) _ h3 λ bs s h4.
          let (fs, is, spelled) = parse_binding-IsBinding raw p in
          subst (AreSpelled (cons raw rest)) (ok-injective h4)
            (more fs is spelled (parse_bindings-AreSpelled registry rest (b ∷ seen) s))
