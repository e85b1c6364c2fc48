-- ===== src/Authorization/Parse/Permitted.antt =====
-- authorization.py: what a parsed authorization permits.
use ops_guard.Prelude.{
  ◌∙◌, String, true, Option, none, some, List, [], ◌∷◌, ◌≡◌, sym, ap, subst, arith, inl, inr,
  Bool-cases, Option-cases, some-injective,
}
use ops_guard.Json.{Json, Items, Fields, nil, cons, str, obj, arr, lookup, keys_are, as_text}
use ops_guard.Json.Read.{
  IsText, require-ok, required-ok, as_mapping, as_list, non_blank, non_blank-IsText, as_mapping-obj,
  as_list-arr,
}
use ops_guard.Text.{is_hex64}
use ops_guard.Errors.{ok, chain-ok, check-ok, convert, convert-ok, ok-injective}
use ops_guard.Env.{Env, canonicalize_json, loads_json}
use ops_guard.Invocation.{reject_unrepresentable_numbers}
use package.ops_guard.Authorization.{Precondition, StandingAuthorization}
use package.ops_guard.Authorization.Parse.{
  authorization_keys, string_at, refreeze, not_representable, freeze_arguments, read_precondition,
  read_preconditions, hex_string, parse_authorization,
}

-- The preconditions spell the items of the document, in order.
pub data Spells : Items → List Precondition → Type 0 where
  done : Spells nil []
  more :
      {item : Fields} {p : Precondition} {rest : Items} {ps : List Precondition}
      → IsText "name" item p.name
      → IsText "expected" item p.expected
      → Spells rest ps
      → Spells (cons (obj item) rest) (p ∷ ps)

-- The frozen arguments are the document's, through their canonical form, and have one themselves.
pub record IsFrozen (env : Env) (raw arguments : Fields) : Type 0 where
  pub representable : reject_unrepresentable_numbers (obj raw) ≡ ok tt
  pub text : String
  pub canonical : canonicalize_json env (obj raw) ≡ ok text
  pub frozen : loads_json env text ≡ ok (obj arguments)
  pub still_representable : reject_unrepresentable_numbers (obj arguments) ≡ ok tt
  pub again : String
  pub still_canonical : canonicalize_json env (obj arguments) ≡ ok again

freeze_arguments-IsFrozen :
    (env : Env) (raw : Fields) {arguments : Fields}
    → freeze_arguments env raw ≡ ok arguments
    → IsFrozen env raw arguments
unfolding freeze_arguments refreeze
freeze_arguments-IsFrozen env raw h =
    chain-ok (convert not_representable (refreeze env raw)) _ h λ value a h1.
      let is = as_mapping-obj (some value) (require-ok (as_mapping (some value)) _ h1) in
      chain-ok (reject_unrepresentable_numbers (obj raw)) _
        (convert-ok not_representable (refreeze env raw) a)
        λ _ b g1. chain-ok (canonicalize_json env (obj raw)) _ g1 λ text c g2.
          chain-ok (loads_json env text) _ g2 λ frozen d g3.
            chain-ok (reject_unrepresentable_numbers frozen) _ g3 λ _ e g4.
              chain-ok (canonicalize_json env frozen) _ g4 λ again f g5.
                let same : frozen ≡ obj _ = ok-injective g5 ∙ some-injective is in
                record {
                  representable = b;
                  text = text;
                  canonical = c;
                  frozen = d ∙ ap ok same;
                  still_representable =
                      subst (λ x. reject_unrepresentable_numbers x ≡ ok tt) same e;
                  again = again;
                  still_canonical = subst (λ x. canonicalize_json env x ≡ ok again) same f;
                }

read_preconditions-Spells :
    (its : Items) {ps : List Precondition} → read_preconditions its ≡ ok ps → Spells its ps
unfolding read_preconditions read_precondition
read_preconditions-Spells nil h = subst (Spells nil) (ok-injective h) done
read_preconditions-Spells (cons raw rest) {ps = qs} h =
    chain-ok (read_precondition raw) _ h λ p a h1.
      chain-ok (read_preconditions rest) _ h1 λ ps b h2.
        required-ok (as_mapping (some raw)) _ _ a λ item c g1.
          check-ok (keys_are ("name" ∷ "expected" ∷ []) item) _ _ g1 λ d g2.
            required-ok (non_blank (lookup "name" item)) _ _ g2 λ name e g3.
              required-ok (non_blank (lookup "expected" item)) _ _ g3 λ expected f g4.
                let is = some-injective (as_mapping-obj (some raw) c) in
                let spelled : Spells (cons (obj item) rest)
                    (record { name = name; expected = expected } ∷ ps) =
                  more (non_blank-IsText (lookup "name" item) e)
                    (non_blank-IsText (lookup "expected" item) f)
                    (read_preconditions-Spells rest b) in
                subst (λ r. Spells (cons r rest) qs) (sym is)
                  (subst (Spells (cons (obj item) rest))
                    (ap (λ q. q ∷ ps) (ok-injective g4) ∙ ok-injective h2) spelled)

-- The record that a document spells
pub record IsPermitted (env : Env) (document : Json) (a : StandingAuthorization) : Type 0 where
  pub fields : Fields
  pub is_mapping : document ≡ obj fields
  pub keys : keys_are authorization_keys fields ≡ true
  pub authorization_id : IsText "authorization_id" fields a.authorization_id
  pub script_path : IsText "script_path" fields a.script_path
  pub action : IsText "action" fields a.action
  pub target : IsText "target" fields a.target
  pub script_sha256 : IsText "script_sha256" fields a.script_sha256
  pub script_hex : is_hex64 a.script_sha256 ≡ true
  pub revision_hash : IsText "runbook_revision_hash" fields a.runbook_revision_hash
  pub revision_hex : is_hex64 a.runbook_revision_hash ≡ true
  pub profile_digest : lookup "runner_profile_digest" fields ≡ some (str a.runner_profile_digest)
  pub profile_hex : is_hex64 a.runner_profile_digest ≡ true
  pub raw_arguments : Fields
  pub arguments : lookup "arguments" fields ≡ some (obj raw_arguments)
  pub frozen : IsFrozen env raw_arguments a.arguments
  pub items : Items
  pub preconditions : lookup "preconditions" fields ≡ some (arr items)
  pub spells : Spells items a.preconditions

string_at-IsText : (fs : Fields) (k : String) {s : String} → string_at fs k ≡ ok s → IsText k fs s
unfolding string_at
string_at-IsText fs k h = non_blank-IsText _ (require-ok _ _ h)

as_text-str : (o : Option Json) {s : String} → as_text o ≡ some s → o ≡ some (str s)
as_text-str (some (str t)) h = ground arith
as_text-str none h = absurd (ground arith)
as_text-str (some _) h = absurd (ground arith)

hex_string-hex :
    (o : Option Json) {s : String}
    → hex_string o ≡ some s
    → (o ≡ some (str s)) × (is_hex64 s ≡ true)
hex_string-hex o {s} h = elim (Option-cases (as_text o)) [
  | inl a ↦ absurd (ground arith)
  | inr (t, a) ↦ elim (Bool-cases (is_hex64 t)) [
    | inl b ↦
        let is : t ≡ s = ground arith in
        (as_text-str o (a ∙ ap some is), subst (λ x. is_hex64 x ≡ true) is b)
    | inr b ↦ absurd (ground arith)
  ]
]

-- An authorization is parsed only from an object with exactly the nine keys; its strings are not
-- blank and its three digests are hexadecimal; its preconditions are those of the document, in
-- order; and its arguments are what the document's arguments are read back as from their canonical
-- form, both exactly representable, and have a canonical form again.
pub parse_authorization-IsPermitted :
    (env : Env) (document : Json) (a : StandingAuthorization)
    → parse_authorization env document ≡ ok a
    → IsPermitted env document a
unfolding parse_authorization
parse_authorization-IsPermitted env document a h =
    required-ok (as_mapping (some document)) _ _ h λ fs b h1.
      check-ok (keys_are authorization_keys fs) _ _ h1 λ keys h2.
        chain-ok (string_at fs "authorization_id") _ h2 λ id c h3.
          chain-ok (string_at fs "script_path") _ h3 λ path d h4.
            chain-ok (string_at fs "action") _ h4 λ action e h5.
              chain-ok (string_at fs "target") _ h5 λ target f h6.
                chain-ok (string_at fs "runbook_revision_hash") _ h6 λ revision g h7.
                  chain-ok (string_at fs "script_sha256") _ h7 λ sha256 i h8.
                    check-ok (is_hex64 sha256) _ _ h8 λ j h9.
                      check-ok (is_hex64 revision) _ _ h9 λ k h10.
                        required-ok (hex_string (lookup "runner_profile_digest" fs)) _ _ h10
                          λ profile l h11.
                            required-ok (as_mapping (lookup "arguments" fs)) _ _ h11 λ raw m h12.
                              chain-ok (freeze_arguments env raw) _ h12 λ arguments n h13.
                                required-ok (as_list (lookup "preconditions" fs)) _ _ h13
                                  λ list o h14. chain-ok (read_preconditions list) _ h14 λ ps q h15.
                                    subst (IsPermitted env document) (ok-injective h15) (record {
                                      fields = fs;
                                      is_mapping =
                                          some-injective (as_mapping-obj (some document) b);
                                      keys = keys;
                                      authorization_id = string_at-IsText fs "authorization_id" c;
                                      script_path = string_at-IsText fs "script_path" d;
                                      action = string_at-IsText fs "action" e;
                                      target = string_at-IsText fs "target" f;
                                      script_sha256 = string_at-IsText fs "script_sha256" i;
                                      script_hex = j;
                                      revision_hash = string_at-IsText fs "runbook_revision_hash" g;
                                      revision_hex = k;
                                      profile_digest = (hex_string-hex _ l).0;
                                      profile_hex = (hex_string-hex _ l).1;
                                      raw_arguments = raw;
                                      arguments = as_mapping-obj _ m;
                                      frozen = freeze_arguments-IsFrozen env raw n;
                                      items = list;
                                      preconditions = as_list-arr _ o;
                                      spells = read_preconditions-Spells list q;
                                    })
