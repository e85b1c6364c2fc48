-- ===== src/Runbooks/Parse/Verified.antt =====
-- runbooks.py: what a parsed revision has been checked for.
use ops_guard.Prelude.{
  String, true, Option, none, some, [], ◌∷◌, ◌==◌, ◌≡◌, refl, sym, ap, subst, arith, eq_iff, ◌∙◌, ℕ,
  some-injective,
}
use ops_guard.Json.{Json, Fields, str, obj, lookup, keys_are}
use ops_guard.Json.Read.{
  IsText, require-ok, required-ok, as_mapping, non_empty, non_blank-IsText, non_empty-str,
  as_mapping-obj, without,
}
use ops_guard.Text.{is_hex64}
use ops_guard.Errors.{ok, chain-ok, check-ok, ok-injective}
use ops_guard.Env.{Env, Moment, naive, aware, document_digest}
use package.ops_guard.Runbooks.{Verification, RunbookRevision}
use package.ops_guard.Runbooks.Parse.{
  require_str, require_str_in, verified_string, aware_moment, parse_verification,
  parse_preconditions, parse_passages, read_revision, parse_revision, revision_keys,
}
use package.ops_guard.Runbooks.Parse.Required.{AreRequired, parse_preconditions-AreRequired}
use package.ops_guard.Runbooks.Parse.Passages.{
  require_str-IsText, require_str_in-IsText, IsPassageList, parse_passages-IsPassageList,
}

-- The verification metadata: two texts and a timestamp with a zone
pub record IsVerification (env : Env) (raw : Option Json) (v : Verification) : Type 0 where
  pub fields : Fields
  pub is_mapping : raw ≡ some (obj fields)
  pub verifier : IsText "verifier" fields v.verifier
  pub applicability : IsText "applicability" fields v.applicability
  pub spelling : String
  pub written : lookup "verified_at" fields ≡ some (str spelling)
  pub zoned : env.fromisoformat spelling ≡ some (aware v.verified_at)

verified_string-IsText :
    (fs : Fields) (k : String) {s : String} → verified_string fs k ≡ ok s → IsText k fs s
unfolding verified_string
verified_string-IsText fs k h = non_blank-IsText _ (require-ok _ _ h)

aware_moment-aware : (o : Option Moment) {t : ℕ} → aware_moment o ≡ ok t → o ≡ some (aware t)
unfolding aware_moment
aware_moment-aware none h = absurd (ground arith)
aware_moment-aware (some (naive t)) h = absurd (ground arith)
aware_moment-aware (some (aware t)) h = ground arith

parse_verification-IsVerification :
    (env : Env) (raw : Option Json) {v : Verification}
    → parse_verification env raw ≡ ok v
    → IsVerification env raw v
unfolding parse_verification
parse_verification-IsVerification env raw h = required-ok (as_mapping raw) _ _ h λ document a h1.
    check-ok (keys_are ("verifier" ∷ "verified_at" ∷ "applicability" ∷ []) document) _ _ h1 λ b h2.
      chain-ok (verified_string document "verifier") _ h2 λ verifier c h3.
        chain-ok (verified_string document "applicability") _ h3 λ applicability d h4.
          required-ok (non_empty (lookup "verified_at" document)) _ _ h4 λ spelling e h5.
            chain-ok (aware_moment (env.fromisoformat spelling)) _ h5 λ moment f h6.
              subst (IsVerification env raw) (ok-injective h6) (record {
                fields = document;
                is_mapping = as_mapping-obj _ a;
                verifier = verified_string-IsText document "verifier" c;
                applicability = verified_string-IsText document "applicability" d;
                spelling = spelling;
                written = (non_empty-str _ e).0;
                zoned = aware_moment-aware _ f;
              })

-- The revision that the fields of a document spell
pub record IsRead (env : Env) (fs op : Fields) (r : RunbookRevision) : Type 0 where
  pub runbook_id : IsText "runbook_id" fs r.runbook_id
  pub revision : IsText "revision" fs r.revision
  pub action : IsText "action" op r.operation_action
  pub target : IsText "target" op r.operation_target
  pub preconditions : AreRequired (lookup "preconditions" fs) r.preconditions
  pub passages : IsPassageList (lookup "passages" fs) r.passages
  pub verification : IsVerification env (lookup "verification" fs) r.verification
  pub body : r.body ≡ obj (without "content_hash" fs)

read_revision-IsRead :
    (env : Env) (fs op : Fields) (hash : String) {r : RunbookRevision}
    → read_revision env fs op hash ≡ ok r
    → IsRead env fs op r × (r.content_hash ≡ hash)
unfolding read_revision
read_revision-IsRead env fs op hash h =
    chain-ok (require_str fs "runbook_id") _ h λ runbook_id a h1.
      chain-ok (require_str fs "revision") _ h1 λ revision b h2.
        chain-ok (require_str_in op "action" "operation") _ h2 λ action c h3.
          chain-ok (require_str_in op "target" "operation") _ h3 λ target d h4.
            chain-ok (parse_preconditions (lookup "preconditions" fs)) _ h4 λ preconditions e h5.
              chain-ok (parse_passages (lookup "passages" fs)) _ h5 λ passages f h6.
                chain-ok (parse_verification env (lookup "verification" fs)) _ h6 λ v g h7.
                  subst (λ r. IsRead env fs op r × (r.content_hash ≡ hash)) (ok-injective h7)
                    (
                      record {
                        runbook_id = require_str-IsText fs "runbook_id" a;
                        revision = require_str-IsText fs "revision" b;
                        action = require_str_in-IsText op "action" "operation" c;
                        target = require_str_in-IsText op "target" "operation" d;
                        preconditions = parse_preconditions-AreRequired _ e;
                        passages = parse_passages-IsPassageList _ f;
                        verification = parse_verification-IsVerification env _ g;
                        body = refl;
                      },
                      refl,
                    )

-- A revision that its document verifies
pub record IsVerified (env : Env) (document : Json) (r : RunbookRevision) : Type 0 where
  pub fields : Fields
  pub is_mapping : document ≡ obj fields
  pub keys : keys_are revision_keys fields ≡ true
  pub operation : Fields
  pub is_operation : lookup "operation" fields ≡ some (obj operation)
  pub read : IsRead env fields operation r
  pub stored : lookup "content_hash" fields ≡ some (str r.content_hash)
  pub hexadecimal : is_hex64 r.content_hash ≡ true
  pub recomputes : document_digest env (obj (without "content_hash" fields)) ≡ ok r.content_hash

-- A document is parsed to a revision only when it is an object with exactly the seven keys; its
-- strings are not blank and stand in the revision; its preconditions are a list, and its passages a
-- list that is not empty, with different locators, each read in order; its verification names a
-- verifier and an applicability and a time with a zone; and the stored content hash is 64
-- hexadecimal characters and is the digest of the document without it.
pub parse_revision-IsVerified :
    (env : Env) (document : Json) (r : RunbookRevision)
    → parse_revision env document ≡ ok r
    → IsVerified env document r
unfolding parse_revision
parse_revision-IsVerified env document r h =
    required-ok (as_mapping (some document)) _ _ h λ fs a h1.
      check-ok (keys_are revision_keys fs) _ _ h1 λ b h2.
        required-ok (as_mapping (lookup "operation" fs)) _ _ h2 λ op c h3.
          check-ok (keys_are ("action" ∷ "target" ∷ []) op) _ _ h3 λ d h4.
            chain-ok (require_str fs "content_hash") _ h4 λ hash e h5.
              check-ok (is_hex64 hash) _ _ h5 λ f h6.
                chain-ok (read_revision env fs op hash) _ h6 λ q g h7.
                  chain-ok (document_digest env q.body) _ h7 λ expected i h8.
                    check-ok (expected == hash) _ _ h8 λ j h9.
                      let (k, l) = read_revision-IsRead env fs op hash g in
                      subst (IsVerified env document) (ok-injective h9) (record {
                        fields = fs;
                        is_mapping = some-injective (as_mapping-obj _ a);
                        keys = b;
                        operation = op;
                        is_operation = as_mapping-obj _ c;
                        read = k;
                        stored =
                            subst (λ x. lookup "content_hash" fs ≡ some (str x)) (sym l)
                              (require_str-IsText fs "content_hash" e).0;
                        hexadecimal = subst (λ x. is_hex64 x ≡ true) (sym l) f;
                        recomputes =
                            subst (λ b. document_digest env b ≡ ok q.content_hash) k.body
                              (i ∙ ap ok ((eq_iff _ _).0 j ∙ sym l));
                      })
