-- ===== src/Audit/Redact.antt =====
-- audit.py: the redaction walk.
pub mod Safety
use Prim.Native.String.{String}
use ops_guard.Prelude.{
  ℕ, zero, suc, Bool, true, false, Option, none, some, List, [], ◌∷◌, ◌==◌, if◌then◌else◌,
}
use ops_guard.Json.{
  Json, Items, Fields, null, bool, int, float, str, arr, obj, nil, cons, end, field, has_key,
}
use ops_guard.Errors.{Result, ok, err, ◌>>=◌, value_error}
use ops_guard.Env.{Env, canonicalize_json}
use ops_guard.Audit.Keys.{is_sensitive}

-- `text[:n]`
abbrev pub take_text : ℕ → String → String
take_text zero s = String.[]
take_text (suc n) String.[] = String.[]
take_text (suc n) (String.◌∷◌ c s) = String.◌∷◌ c (take_text n s)

abbrev pub redacted_marker : String
redacted_marker = "__redacted__"

-- `AuditLog.fingerprint`, and the fingerprint of a redacted value
unfoldable pub fingerprint : Env → String → Json → Result String
fingerprint env key value = do
  digest_input ← canonicalize_json env value
  ok (take_text 16 (env.hmac_sha256 key digest_input))

-- What is stored in place of a sensitive value.
unfoldable pub replacement : Env → Option String → Json → Result Json
replacement env none value = ok (obj (field redacted_marker (str "sensitive-key") end))
replacement env (some key) value = do
  print ← fingerprint env key value
  ok (obj (field redacted_marker (str "sensitive-key") (field "fingerprint" (str print) end)))

module _ (env : Env) (sensitive_keys : List String) (fingerprint_key : Option String) where
  unfoldable mutual
    -- `redact`
    pub redact : Json → Result Json
    redact null = ok null
    redact (bool b) = ok (bool b)
    redact (int n) = ok (int n)
    redact (float x) = ok (float x)
    redact (str s) = ok (str s)
    redact (arr xs) = redact_items xs >>= λ out. ok (arr out)
    redact (obj fs) =
        if has_key redacted_marker fs
        then err (value_error "redaction marker key is reserved for write-time redaction")
        else redact_fields fs >>= λ out. ok (obj out)

    pub redact_items : Items → Result Items
    redact_items nil = ok nil
    redact_items (cons x xs) = redact x >>= λ out. redact_items xs >>= λ rest. ok (cons out rest)

    pub redact_fields : Fields → Result Fields
    redact_fields end = ok end
    redact_fields (field k v fs) =
        let clean = redact v in
        (if is_sensitive sensitive_keys k then replacement env fingerprint_key v else clean)
        >>= λ out. redact_fields fs >>= λ rest. ok (field k out rest)
