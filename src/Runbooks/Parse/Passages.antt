-- ===== src/Runbooks/Parse/Passages.antt =====
-- runbooks.py: what the parsed lists of a revision hold.
use mathlib.Core.List.{Memᴰ}
use ops_guard.Prelude.{
  String, false, not, Option, none, some, List, [], ◌∷◌, ◌≡◌, ◌≢◌, refl, sym, subst, arith, eq_refl,
  find, not-true, some-injective,
}
use ops_guard.Json.{Json, Items, Fields, nil, cons, obj, keys_are, is_one_of, arr}
use ops_guard.Json.Read.{
  IsText, require-ok, required-ok, as_mapping, non_blank-IsText, as_mapping-obj, as_list,
}
use ops_guard.Errors.{ok, chain-ok, check-ok, ok-injective}
use package.ops_guard.Runbooks.{Passage, find_passage}
use package.ops_guard.Runbooks.Parse.{
  require_str_in, require_str, parse_passage, parse_passage_list, parse_passages,
}

pub require_str_in-IsText :
    (fs : Fields) (k place : String) {s : String} → require_str_in fs k place ≡ ok s → IsText k fs s
unfolding require_str_in
require_str_in-IsText fs k place h = non_blank-IsText _ (require-ok _ _ h)

pub require_str-IsText :
    (fs : Fields) (k : String) {s : String} → require_str fs k ≡ ok s → IsText k fs s
unfolding require_str
require_str-IsText fs k h = non_blank-IsText _ (require-ok _ _ h)

-- The passages spell the items of the document, in order.
pub data Spells : Items → List Passage → Type 0 where
  done : Spells nil []
  more :
      {item : Fields} {p : Passage} {rest : Items} {ps : List Passage}
      → IsText "locator" item p.locator
      → IsText "text" item p.text
      → Spells rest ps
      → Spells (cons (obj item) rest) (p ∷ ps)

-- No locator stands in the list, and none is repeated.
abbrev pub IsFresh : List String → List Passage → Type 0
IsFresh seen [] = Unit {0}
IsFresh seen (p ∷ ps) = (is_one_of seen p.locator ≡ false) × IsFresh (p.locator ∷ seen) ps

-- What one round returns
record IsPassage (raw : Json) (seen : List String) (p : Passage) : Type 0 where
  item : Fields
  is_item : raw ≡ obj item
  locator : IsText "locator" item p.locator
  text : IsText "text" item p.text
  fresh : is_one_of seen p.locator ≡ false

parse_passage-IsPassage :
    (raw : Json) (seen : List String) {p : Passage}
    → parse_passage raw seen ≡ ok p
    → IsPassage raw seen p
unfolding parse_passage
parse_passage-IsPassage raw seen h = required-ok (as_mapping (some raw)) _ _ h λ item a h1.
    check-ok (keys_are ("locator" ∷ "text" ∷ []) item) _ _ h1 λ b h2.
      chain-ok (require_str_in item "locator" "passage") _ h2 λ locator c h3.
        chain-ok (require_str_in item "text" "passage") _ h3 λ text d h4.
          check-ok (not (is_one_of seen locator)) _ _ h4 λ e h5.
            subst (IsPassage raw seen) (ok-injective h5) (record {
              item = item;
              is_item = some-injective (as_mapping-obj _ a);
              locator = require_str_in-IsText item "locator" "passage" c;
              text = require_str_in-IsText item "text" "passage" d;
              fresh = not-true _ e;
            })

pub parse_passage_list-Spells :
    (its : Items) (seen : List String) {ps : List Passage}
    → parse_passage_list its seen ≡ ok ps
    → Spells its ps × IsFresh seen ps
unfolding parse_passage_list
parse_passage_list-Spells nil seen h =
    subst (λ ps. Spells nil ps × IsFresh seen ps) (ok-injective h) (done, tt)
parse_passage_list-Spells (cons raw rest) seen {ps} h =
    chain-ok (parse_passage raw seen) _ h λ p a h1.
      chain-ok (parse_passage_list rest (p.locator ∷ seen)) _ h1 λ qs b h2.
        let i = parse_passage-IsPassage raw seen a in
        let (s, f) = parse_passage_list-Spells rest (p.locator ∷ seen) b in
        let joined : Spells (cons raw rest) (p ∷ qs) =
          subst (λ r. Spells (cons r rest) (p ∷ qs)) (sym i.is_item) (more i.locator i.text s) in
        subst (λ all. Spells (cons raw rest) all × IsFresh seen all) (ok-injective h2)
          (joined, (i.fresh, f))

-- The list of passages that a document holds
pub record IsPassageList (raw : Option Json) (ps : List Passage) : Type 0 where
  pub items : Items
  pub is_list : raw ≡ some (arr items)
  pub spells : Spells items ps
  pub fresh : IsFresh [] ps
  pub non_empty : ps ≢ []

Spells-ne-nil :
    {first : Json} {rest : Items} {ps : List Passage} → Spells (cons first rest) ps → ps ≢ []
Spells-ne-nil (more l t s) h = cc

-- A list that is not empty is read by `parse_passage_list`.
pub parse_passages-IsPassageList :
    (raw : Option Json) {ps : List Passage} → parse_passages raw ≡ ok ps → IsPassageList raw ps
unfolding parse_passages as_list
parse_passages-IsPassageList (some (arr nil)) h = absurd (ground arith)
parse_passages-IsPassageList (some (arr (cons first rest))) h =
    let (s, f) = parse_passage_list-Spells (cons first rest) [] h in
    record {
      items = cons first rest;
      is_list = refl;
      spells = s;
      fresh = f;
      non_empty = Spells-ne-nil s;
    }
parse_passages-IsPassageList none h = absurd (ground arith)
parse_passages-IsPassageList (some _) h = absurd (ground arith)

fresh_apart :
    (seen : List String) (ps : List Passage) (p : Passage)
    → IsFresh seen ps
    → Memᴰ p ps
    → is_one_of seen p.locator ≡ false
fresh_apart seen [] p f m = elim m [ ]
fresh_apart seen (q ∷ ps) p (f, fs) (Memᴰ.head e) =
    subst (λ x. is_one_of seen x.locator ≡ false) (sym e) f
fresh_apart seen (q ∷ ps) p (f, fs) (Memᴰ.tail m) =
    ground (arith, fresh_apart (q.locator ∷ seen) ps p fs m)

-- Among passages with different locators, a passage is found at its own.
pub IsFresh-find_passage :
    (seen : List String) (ps : List Passage) (p : Passage)
    → IsFresh seen ps
    → Memᴰ p ps
    → find_passage p.locator ps ≡ some p
unfolding find_passage find
IsFresh-find_passage seen [] p f m = elim m [ ]
IsFresh-find_passage seen (q ∷ ps) p (f, fs) (Memᴰ.head e) = ground (arith, eq_refl q.locator, e)
IsFresh-find_passage seen (q ∷ ps) p (f, fs) (Memᴰ.tail m) = ground (
  arith,
  fresh_apart (q.locator ∷ seen) ps p fs m,
  IsFresh-find_passage (q.locator ∷ seen) ps p fs m,
)
