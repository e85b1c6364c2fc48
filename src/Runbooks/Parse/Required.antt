-- ===== src/Runbooks/Parse/Required.antt =====
-- runbooks.py: the preconditions of a parsed revision are those of its document.
use ops_guard.Prelude.{Option, some, List, [], ◌∷◌, ◌≡◌, sym, subst, some-injective}
use ops_guard.Json.{Json, Items, nil, cons, arr, obj, keys_are}
use ops_guard.Json.Read.{required-ok, as_list, as_list-arr, as_mapping, as_mapping-obj}
use ops_guard.Errors.{ok, chain-ok, check-ok, ok-injective}
use ops_guard.Authorization.{Precondition}
use ops_guard.Authorization.Parse.Permitted.{Spells, done, more}
use package.ops_guard.Runbooks.Parse.{
  require_str_in, parse_precondition, parse_precondition_list, parse_preconditions,
}
use package.ops_guard.Runbooks.Parse.Passages.{require_str_in-IsText}

-- A list of items that spell the preconditions, in order
pub record AreRequired (raw : Option Json) (ps : List Precondition) : Type 0 where
  pub items : Items
  pub is_list : raw ≡ some (arr items)
  pub spells : Spells items ps

parse_precondition_list-Spells :
    (its : Items) {ps : List Precondition} → parse_precondition_list its ≡ ok ps → Spells its ps
unfolding parse_precondition_list parse_precondition
parse_precondition_list-Spells nil h = subst (Spells nil) (ok-injective h) done
parse_precondition_list-Spells (cons raw rest) h = chain-ok (parse_precondition raw) _ h λ p a h1.
    chain-ok (parse_precondition_list rest) _ h1 λ ps b h2.
      required-ok (as_mapping (some raw)) _ _ a λ item m g1.
        check-ok (keys_are ("name" ∷ "expected" ∷ []) item) _ _ g1 λ keys g2.
          chain-ok (require_str_in item "name" "precondition") _ g2 λ name n g3.
            chain-ok (require_str_in item "expected" "precondition") _ g3 λ expected e g4.
              let is = some-injective (as_mapping-obj (some raw) m) in
              let same = ok-injective g4 in
              subst (Spells (cons raw rest)) (ok-injective h2) (
                subst (λ (x : Json). Spells (cons x rest) (p ∷ ps)) (sym is)
                  (subst (λ (q : Precondition). Spells (cons (obj item) rest) (q ∷ ps)) same
                    (more (require_str_in-IsText item "name" "precondition" n)
                      (require_str_in-IsText item "expected" "precondition" e)
                      (parse_precondition_list-Spells rest b))))

pub parse_preconditions-AreRequired :
    (raw : Option Json) {ps : List Precondition}
    → parse_preconditions raw ≡ ok ps
    → AreRequired raw ps
unfolding parse_preconditions
parse_preconditions-AreRequired raw h = required-ok (as_list raw) _ _ h λ list a h1. record {
  items = list;
  is_list = as_list-arr raw a;
  spells = parse_precondition_list-Spells list h1;
}
