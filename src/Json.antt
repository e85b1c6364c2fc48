-- ===== src/Json.antt =====
-- The JSON values that the program builds, hashes and stores: Python's `bool`, `int`, `float`,
-- `str`, `None`, `list` and `dict` with string keys, in insertion order.
pub mod Read
use ops_guard.Prelude.{
  ℕ, ℤ, pos, String, Bool, true, false, ◌&&◌, ◌||◌, Option, none, some, List, [], ◌∷◌, ◌==◌,
  if◌then◌else◌,
}

mutual
  pub data Json : Type 0 where
    null : Json
    bool : Bool → Json
    int : ℤ → Json
    -- a double, by the number that its 64 bits spell
    float : ℕ → Json
    str : String → Json
    arr : Items → Json
    obj : Fields → Json

  pub data Items : Type 0 where
    nil : Items
    cons : Json → Items → Items

  pub data Fields : Type 0 where
    end : Fields
    field : String → Json → Fields → Fields

-- `document.get(key)`
unfoldable pub lookup : String → Fields → Option Json
lookup k end = none
lookup k (field j v fs) = if j == k then some v else lookup k fs

-- Building values
abbrev pub strs : List (String × String) → Fields
strs [] = end
strs ((k, v) ∷ fs) = field k (str v) (strs fs)

abbrev pub items : List Json → Items
items [] = nil
items (x ∷ xs) = cons x (items xs)

abbrev pub texts : List String → Items
texts [] = nil
texts (x ∷ xs) = cons (str x) (texts xs)

abbrev pub nat : ℕ → Json
nat n = int (pos n)

abbrev pub text_or_null : Option String → Json
text_or_null none = null
text_or_null (some s) = str s

-- `isinstance(value, str)`
abbrev pub as_text : Option Json → Option String
as_text (some (str s)) = some s
as_text _ = none

-- `key in document`
abbrev pub has_key : String → Fields → Bool
has_key k end = false
has_key k (field j v fs) = j == k || has_key k fs

abbrev pub is_one_of : List String → String → Bool
is_one_of [] k = false
is_one_of (x ∷ xs) k = x == k || is_one_of xs k

all_one_of : List String → Fields → Bool
all_one_of ks end = true
all_one_of ks (field j v fs) = is_one_of ks j && all_one_of ks fs

has_all : List String → Fields → Bool
has_all [] fs = true
has_all (k ∷ ks) fs = has_key k fs && has_all ks fs

-- `set(document) == {…}`
unfoldable pub keys_are : List String → Fields → Bool
unfolding all_one_of has_all
keys_are ks fs = all_one_of ks fs && has_all ks fs
