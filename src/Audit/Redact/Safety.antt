-- ===== src/Audit/Redact/Safety.antt =====
-- audit.py: what redaction guarantees of every stored payload, against the value that was given.
use ops_guard.Prelude.{
  Bool, true, false, Option, none, some, String, List, ◌≡◌, refl, sym, subst, arith, if◌then◌else◌,
  Option-cases, inl, inr,
}
use ops_guard.Json.{
  Json, Items, Fields, null, bool, int, float, str, arr, obj, nil, cons, end, field, has_key,
}
use ops_guard.Errors.{Error, Result, ok, err, chain-ok}
use ops_guard.Env.{Env, canonicalize_json}
use ops_guard.Audit.Keys.{is_sensitive}
use ops_guard.World.Steps.{ok-injective}
use package.ops_guard.Audit.Redact.{
  take_text, redacted_marker, fingerprint, replacement, redact, redact_items, redact_fields,
}

module _ (env : Env) (keys : List String) where
  -- The marker that stands for a value: bare where no fingerprint key is configured, else with the
  -- first 16 characters of the keyed hash of the value's canonical form, and nothing else.
  abbrev pub IsMarkerOf : Option String → Json → Json → Type 0
  IsMarkerOf none value out = out ≡ obj (field "__redacted__" (str "sensitive-key") end)
  IsMarkerOf (some key) value out =
      (form : String) × (env.canonicalize value ≡ some form)
      × (out
          ≡ obj (
              field "__redacted__" (str "sensitive-key")
                (field "fingerprint" (str (take_text 16 (env.hmac_sha256 key form))) end)))

  module _ (fingerprint_key : Option String) where
    unfoldable mutual
      -- The second value is the first, with a marker in place of each value under a sensitive key.
      pub IsRedacted : Json → Json → Type 0
      IsRedacted null out = out ≡ null
      IsRedacted (bool b) out = out ≡ bool b
      IsRedacted (int n) out = out ≡ int n
      IsRedacted (float x) out = out ≡ float x
      IsRedacted (str s) out = out ≡ str s
      IsRedacted (arr xs) out = (ys : Items) × (out ≡ arr ys) × AllRedacted xs ys
      IsRedacted (obj fs) out =
          (gs : Fields) × (out ≡ obj gs)
          × (has_key "__redacted__" fs ≡ false)
          × FieldsRedacted fs gs

      pub AllRedacted : Items → Items → Type 0
      AllRedacted nil ys = ys ≡ nil
      AllRedacted (cons x xs) ys =
          (y : Json) × (rest : Items) × (ys ≡ cons y rest) × IsRedacted x y × AllRedacted xs rest

      pub FieldsRedacted : Fields → Fields → Type 0
      FieldsRedacted end gs = gs ≡ end
      FieldsRedacted (field k v fs) gs =
          (out : Json) × (rest : Fields) × (gs ≡ field k out rest)
          × (if is_sensitive keys k then IsMarkerOf fingerprint_key v out else IsRedacted v out)
          × FieldsRedacted fs rest

    canonical-some :
        (v : Json) {form : String}
        → canonicalize_json env v ≡ ok form
        → env.canonicalize v ≡ some form
    unfolding canonicalize_json
    canonical-some v h = elim (Option-cases (env.canonicalize v)) [
      | inl p ↦ absurd (ground arith)
      | inr (s, p) ↦ ground arith
    ]

    replacement-IsMarkerOf :
        (key : Option String) (v : Json) {out : Json}
        → replacement env key v ≡ ok out
        → IsMarkerOf key v out
    unfolding replacement fingerprint
    replacement-IsMarkerOf none v h = sym (ok-injective h)
    replacement-IsMarkerOf (some key) v {out} h = chain-ok (fingerprint env key v) _ h λ print p q.
        chain-ok (canonicalize_json env v) _ p λ form r s. (
          form,
          canonical-some v r,
          subst
              (λ t.
                out
                ≡ obj
                    (field "__redacted__" (str "sensitive-key") (field "fingerprint" (str t) end)))
              (sym (ok-injective s)) (sym (ok-injective q)),
        )

    choose-IsRedacted :
        (sensitive : Bool) (v : Json) (clean : Result Json) {out : Json}
        → (if sensitive then replacement env fingerprint_key v else clean) ≡ ok out
        → (clean ≡ ok out → IsRedacted v out)
        → if sensitive then IsMarkerOf fingerprint_key v out else IsRedacted v out
    choose-IsRedacted true v clean h k = replacement-IsMarkerOf fingerprint_key v h
    choose-IsRedacted false v clean h k = k h

    unreserved :
        (b : Bool) (e : Error) (r : Result Json) {out : Json}
        → (if b then err e else r) ≡ ok out
        → (b ≡ false) × (r ≡ ok out)
    unreserved true e r h = absurd (ground arith)
    unreserved false e r h = (refl, h)

    mutual
      unfolding redact IsRedacted

      value-IsRedacted :
          (value out : Json) → redact env keys fingerprint_key value ≡ ok out → IsRedacted value out
      value-IsRedacted null out h = sym (ok-injective h)
      value-IsRedacted (bool b) out h = sym (ok-injective h)
      value-IsRedacted (int n) out h = sym (ok-injective h)
      value-IsRedacted (float x) out h = sym (ok-injective h)
      value-IsRedacted (str s) out h = sym (ok-injective h)
      value-IsRedacted (arr xs) out h =
          chain-ok (redact_items env keys fingerprint_key xs) _ h
            λ ys p q. (ys, sym (ok-injective q), items-AllRedacted xs ys p)
      value-IsRedacted (obj fs) out h =
          let (fresh, go) = unreserved (has_key redacted_marker fs) _ _ h in
          chain-ok (redact_fields env keys fingerprint_key fs) _ go
            λ gs p q. (gs, sym (ok-injective q), fresh, fields-FieldsRedacted fs gs p)

      items-AllRedacted :
          (xs ys : Items) → redact_items env keys fingerprint_key xs ≡ ok ys → AllRedacted xs ys
      items-AllRedacted nil ys h = sym (ok-injective h)
      items-AllRedacted (cons x xs) ys h =
          chain-ok (redact env keys fingerprint_key x) _ h λ y p h1.
            chain-ok (redact_items env keys fingerprint_key xs) _ h1 λ rest q h2.
              (y, rest, sym (ok-injective h2), value-IsRedacted x y p, items-AllRedacted xs rest q)

      fields-FieldsRedacted :
          (xs ys : Fields)
          → redact_fields env keys fingerprint_key xs ≡ ok ys
          → FieldsRedacted xs ys
      fields-FieldsRedacted end ys h = sym (ok-injective h)
      fields-FieldsRedacted (field k v fs) ys h =
          chain-ok
            (if is_sensitive keys k
              then replacement env fingerprint_key v
              else redact env keys fingerprint_key v)
            _ h
            λ out p h1. chain-ok (redact_fields env keys fingerprint_key fs) _ h1 λ rest q h2. (
              out,
              rest,
              sym (ok-injective h2),
              choose-IsRedacted (is_sensitive keys k) v (redact env keys fingerprint_key v) p
                  (λ e. value-IsRedacted v out e),
              fields-FieldsRedacted fs rest q,
            )

    -- When the redaction of a value returns, the result is the value, but that under every sensitive
    -- key, at any depth, stands a marker: it says that a value was redacted and, if a fingerprint
    -- key is configured, holds the first 16 characters of the keyed hash of this value's canonical
    -- form; it holds nothing else. And no object of the value outside the redacted ones had the
    -- marker's key.
    pub redact-IsRedacted :
        (value out : Json) → redact env keys fingerprint_key value ≡ ok out → IsRedacted value out
    redact-IsRedacted value out h = value-IsRedacted value out h
