-- ===== src/Preconditions/Policy/Loaded.antt =====
-- preconditions.py: what a loaded policy holds.
use mathlib.Core.List.{Memᴰ}
use ops_guard.Prelude.{
  true, false, not, some, List, [], ◌∷◌, ◌≡◌, refl, sym, ap, subst, arith, eq_refl, not-true,
  some-injective, or-left, or-right, find,
}
use ops_guard.Json.{Json, Items, Fields, nil, cons, obj, lookup, keys_are, as_text}
use ops_guard.Json.Read.{required-ok, as_mapping, as_list, as_mapping-obj}
use ops_guard.Errors.{ok, chain-ok, check-ok, convert, convert-ok, ok-injective}
use ops_guard.Env.{Env, document_digest}
use ops_guard.Authorization.{StandingAuthorization}
use ops_guard.Authorization.Parse.{parse_authorization}
use ops_guard.Authorization.Parse.Permitted.{IsPermitted, parse_authorization-IsPermitted}
use package.ops_guard.Preconditions.{
  ObserverBinding, OperatorPolicy, Registry, has_observer_key, binding_for,
}
use package.ops_guard.Preconditions.Default.{validate_settings}
use package.ops_guard.Preconditions.Policy.Spelled.{AreSpelled, parse_bindings-AreSpelled}
use ops_guard.Json.{arr}
use ops_guard.Json.Read.{as_list-arr}
use package.ops_guard.Preconditions.Policy.{
  standing_error, parse_standing, parse_binding, key_of, has_key_of, parse_bindings, policy_keys,
  is_text, load_policy,
}

-- The standing authorizations are those of the items, in order.
pub data AreStanding (env : Env) : Items → List StandingAuthorization → Type 0 where
  done : AreStanding env nil []
  more :
      {raw : Json} {a : StandingAuthorization} {rest : Items} {as' : List StandingAuthorization}
      → IsPermitted env raw a
      → AreStanding env rest as'
      → AreStanding env (cons raw rest) (a ∷ as')

parse_standing-AreStanding :
    (env : Env) (its : Items) {as' : List StandingAuthorization}
    → parse_standing env its ≡ ok as'
    → AreStanding env its as'
unfolding parse_standing
parse_standing-AreStanding env nil h = subst (AreStanding env nil) (ok-injective h) done
parse_standing-AreStanding env (cons raw rest) h =
    chain-ok (convert standing_error (parse_authorization env raw)) _ h λ a p h1.
      chain-ok (parse_standing env rest) _ h1 λ others q h2.
        subst (AreStanding env (cons raw rest)) (ok-injective h2) (
          more
            (parse_authorization-IsPermitted env raw a
              (convert-ok standing_error (parse_authorization env raw) p))
            (parse_standing-AreStanding env rest q))

-- No binding has the key of an earlier one, and the settings of each are valid.
abbrev pub AreBindings : Registry → List ObserverBinding → List ObserverBinding → Type 0
AreBindings registry seen [] = Unit {0}
AreBindings registry seen (b ∷ bs) =
    (has_key_of b seen ≡ false)
    × (validate_settings registry b.observer_id b.settings ≡ ok tt)
    × AreBindings registry (b ∷ seen) bs

parse_bindings-AreBindings :
    (registry : Registry) (its : Items) (seen : List ObserverBinding) {bs : List ObserverBinding}
    → parse_bindings registry its seen ≡ ok bs
    → AreBindings registry seen bs
unfolding parse_bindings
parse_bindings-AreBindings registry nil seen h =
    subst (AreBindings registry seen) (ok-injective h) tt
parse_bindings-AreBindings registry (cons raw rest) seen h =
    chain-ok (parse_binding raw) _ h λ b p h1. check-ok (not (has_key_of b seen)) _ _ h1 λ q h2.
      chain-ok (validate_settings registry b.observer_id b.settings) _ h2 λ _ r h3.
        chain-ok (parse_bindings registry rest (b ∷ seen)) _ h3 λ bs s h4.
          subst (AreBindings registry seen) (ok-injective h4)
            (not-true _ q, r, parse_bindings-AreBindings registry rest (b ∷ seen) s)

unseen :
    (c : ObserverBinding) (seen : List ObserverBinding) (d : ObserverBinding)
    → has_key_of c seen ≡ false
    → Memᴰ d seen
    → has_observer_key (key_of c) d ≡ false
unfolding has_key_of
unseen c [] d x m = elim m [ ]
unseen c (f ∷ seen) d x (Memᴰ.head e) =
    subst (λ z. has_observer_key (key_of c) z ≡ false) (sym e) (or-left _ _ x)
unseen c (f ∷ seen) d x (Memᴰ.tail m) = unseen c seen d (or-right _ _ x) m

-- A binding does not have the key of a later one.
apart :
    (registry : Registry) (seen bs : List ObserverBinding) (d b : ObserverBinding)
    → AreBindings registry seen bs
    → Memᴰ d seen
    → Memᴰ b bs
    → has_observer_key (key_of b) d ≡ false
apart registry seen [] d b a m n = elim n [ ]
apart registry seen (c ∷ bs) d b (x, y, a) m (Memᴰ.head e) =
    subst (λ z. has_observer_key (key_of z) d ≡ false) (sym e) (unseen c seen d x m)
apart registry seen (c ∷ bs) d b (x, y, a) m (Memᴰ.tail n) =
    apart registry (c ∷ seen) bs d b a (Memᴰ.tail m) n

own_key : (b : ObserverBinding) → has_observer_key (key_of b) b ≡ true
own_key b = ground (arith, eq_refl b.runbook_id, eq_refl b.revision, eq_refl b.content_hash)

found :
    (registry : Registry) (seen bs : List ObserverBinding) (b : ObserverBinding)
    → AreBindings registry seen bs
    → Memᴰ b bs
    → find (has_observer_key (key_of b)) bs ≡ some b
unfolding find
found registry seen [] b a n = elim n [ ]
found registry seen (c ∷ bs) b (x, y, a) (Memᴰ.head e) =
    rw (subst (λ z. has_observer_key (key_of b) z ≡ true) e (own_key b)) (ap some (sym e))
found registry seen (c ∷ bs) b (x, y, a) (Memᴰ.tail n) =
    rw (apart registry (c ∷ seen) bs c b a (Memᴰ.head refl) n) (found registry (c ∷ seen) bs b a n)

valid :
    (registry : Registry) (seen bs : List ObserverBinding) (b : ObserverBinding)
    → AreBindings registry seen bs
    → Memᴰ b bs
    → validate_settings registry b.observer_id b.settings ≡ ok tt
valid registry seen [] b a n = elim n [ ]
valid registry seen (c ∷ bs) b (x, y, a) (Memᴰ.head e) =
    subst (λ z. validate_settings registry z.observer_id z.settings ≡ ok tt) (sym e) y
valid registry seen (c ∷ bs) b (x, y, a) (Memᴰ.tail n) = valid registry (c ∷ seen) bs b a n

-- What a loaded policy promises
pub record IsPolicy (env : Env) (registry : Registry) (document : Json) (p : OperatorPolicy)
    : Type 0 where
  pub fields : Fields
  pub is_mapping : document ≡ obj fields
  pub keys : keys_are policy_keys fields ≡ true
  pub digest : document_digest env document ≡ ok p.digest
  pub records : Items
  pub listed : lookup "standing_authorizations" fields ≡ some (arr records)
  pub standing : AreStanding env records p.standing
  pub items : Items
  pub bound : lookup "observer_bindings" fields ≡ some (arr items)
  pub bindings : AreSpelled items p.bindings
  pub found : (b : ObserverBinding) → Memᴰ b p.bindings → binding_for p (key_of b) ≡ some b
  pub valid :
      (b : ObserverBinding)
      → Memᴰ b p.bindings
      → validate_settings registry b.observer_id b.settings ≡ ok tt

-- A policy is loaded only from an object with exactly the three keys, whose digest it carries. Its
-- standing authorizations are what the document's records permit, and its observer bindings those
-- that the document spells, each in order; the settings of each binding are valid for its observer;
-- and the binding found under a binding's key is that binding.
pub load_policy-IsPolicy :
    (env : Env) (registry : Registry) (document : Json) (p : OperatorPolicy)
    → load_policy env registry document ≡ ok p
    → IsPolicy env registry document p
unfolding load_policy binding_for
load_policy-IsPolicy env registry document p h =
    required-ok (as_mapping (some document)) _ _ h λ fs a h1.
      check-ok (keys_are policy_keys fs) _ _ h1 λ keys h2.
        check-ok (is_text "ops-guard-policy-v1" (as_text (lookup "schema_version" fs))) _ _ h2
          λ b h3.
            required-ok (as_list (lookup "standing_authorizations" fs)) _ _ h3 λ standing_raw c h4.
              required-ok (as_list (lookup "observer_bindings" fs)) _ _ h4 λ bindings_raw d h5.
                chain-ok (parse_standing env standing_raw) _ h5 λ standing e h6.
                  chain-ok (parse_bindings registry bindings_raw []) _ h6 λ bindings f h7.
                    chain-ok (document_digest env document) _ h7 λ digest g h8.
                      let are = parse_bindings-AreBindings registry bindings_raw [] f in
                      subst (IsPolicy env registry document) (ok-injective h8) (record {
                        fields = fs;
                        is_mapping = some-injective (as_mapping-obj (some document) a);
                        keys = keys;
                        digest = g;
                        records = standing_raw;
                        listed = as_list-arr _ c;
                        standing = parse_standing-AreStanding env standing_raw e;
                        items = bindings_raw;
                        bound = as_list-arr _ d;
                        bindings = parse_bindings-AreSpelled registry bindings_raw [] f;
                        found = λ b m. found registry [] bindings b are m;
                        valid = λ b m. valid registry [] bindings b are m;
                      })
