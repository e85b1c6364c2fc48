-- ===== src/Json/Read.antt =====
-- How the parsers read a value of a document: `isinstance` and what they ask of a string.
use ops_guard.Prelude.{
  ℕ, pos, List, [], ◌∷◌, String, false, Option, none, some, ◌==◌, ◌≡◌, refl, arith, if◌then◌else◌,
  inl, inr, Bool-cases,
}
use ops_guard.Errors.{Error, Result, ok, err, ◌>>=◌}
use ops_guard.Text.{is_blank}
use package.ops_guard.Json.{Json, Items, Fields, str, int, arr, obj, nil, cons, end, field, lookup}

-- `isinstance(value, str) and value.strip()`
unfoldable pub non_blank : Option Json → Option String
non_blank (some (str s)) = if is_blank s then none else some s
non_blank _ = none

-- `isinstance(value, str) and value`
unfoldable pub non_empty : Option Json → Option String
non_empty (some (str s)) = if s == "" then none else some s
non_empty _ = none

-- `isinstance(value, list)` and `isinstance(value, Mapping)`
unfoldable pub as_list : Option Json → Option Items
as_list (some (arr xs)) = some xs
as_list _ = none

unfoldable pub as_mapping : Option Json → Option Fields
as_mapping (some (obj fs)) = some fs
as_mapping _ = none

-- `isinstance(value, int) and not isinstance(value, bool) and value >= 0`
unfoldable pub as_nat : Option Json → Option ℕ
as_nat (some (int (pos n))) = some n
as_nat _ = none

-- `all(isinstance(item, str) and item for item in items)`
unfoldable pub as_texts : Items → Option (List String)
unfolding non_empty
as_texts nil = some []
as_texts (cons x xs) = elim (non_empty (some x)) [
  | none ↦ none
  | some s ↦ elim (as_texts xs) [ none ↦ none | some rest ↦ some (s ∷ rest) ]
]

-- What is missing raises.
abbrev pub require {ℓ} : {A : Type ℓ} → Option A → Error → Result A
require none error = err error
require (some value) error = ok value

-- The document without a key
unfoldable pub without : String → Fields → Fields
without k end = end
without k (field j v fs) = let rest = without k fs in if j == k then rest else field j v rest

-- The value at a key is this text, which is not blank.
abbrev pub IsText : String → Fields → String → Type 0
IsText k fs s = (lookup k fs ≡ some (str s)) × (is_blank s ≡ false)

-- The value at a key is this text, which is not empty.
abbrev pub IsFilled : String → Fields → String → Type 0
IsFilled k fs s = (lookup k fs ≡ some (str s)) × ((s == "") ≡ false)

pub require-ok {ℓ} :
    {A : Type ℓ} (o : Option A) (error : Error) {a : A} → require o error ≡ ok a → o ≡ some a
require-ok none error h = absurd (ground arith)
require-ok (some value) error h = ground arith

-- A chain that starts with a required value and returned
pub required-ok {ℓ κ μ} :
    {A : Type ℓ} {B : Type κ} {C : Type μ} (o : Option A) (error : Error) (next : A → Result B)
    {b : B}
    → (require o error >>= next) ≡ ok b
    → ((a : A) → o ≡ some a → next a ≡ ok b → C)
    → C
required-ok none error next h k = absurd (ground arith)
required-ok (some value) error next h k = k value refl h

pub non_blank-IsText :
    (o : Option Json) {s : String}
    → non_blank o ≡ some s
    → (o ≡ some (str s)) × (is_blank s ≡ false)
unfolding non_blank
non_blank-IsText (some (str t)) h = elim (Bool-cases (is_blank t)) [
  | inl a ↦ absurd (ground arith)
  | inr a ↦ ground arith
]
non_blank-IsText none h = absurd (ground arith)
non_blank-IsText (some (arr x)) h = absurd (ground arith)
non_blank-IsText (some (obj x)) h = absurd (ground arith)
non_blank-IsText (some _) h = absurd (ground arith)

pub non_empty-str :
    (o : Option Json) {s : String} → non_empty o ≡ some s → (o ≡ some (str s)) × (s == "" ≡ false)
unfolding non_empty
non_empty-str (some (str t)) h = elim (Bool-cases (t == "")) [
  | inl a ↦ absurd (ground arith)
  | inr a ↦ ground arith
]
non_empty-str none h = absurd (ground arith)
non_empty-str (some _) h = absurd (ground arith)

pub as_list-arr : (o : Option Json) {xs : Items} → as_list o ≡ some xs → o ≡ some (arr xs)
unfolding as_list
as_list-arr (some (arr t)) h = ground arith
as_list-arr none h = absurd (ground arith)
as_list-arr (some _) h = absurd (ground arith)

pub as_mapping-obj : (o : Option Json) {fs : Fields} → as_mapping o ≡ some fs → o ≡ some (obj fs)
unfolding as_mapping
as_mapping-obj (some (obj t)) h = ground arith
as_mapping-obj none h = absurd (ground arith)
as_mapping-obj (some _) h = absurd (ground arith)
