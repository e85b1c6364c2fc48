-- ===== src/Audit/Keys.antt =====
-- audit.py: which mapping keys are sensitive.
use Prim.Native.Char.{code}
use Prim.Native.String.{String}
use ops_guard.Prelude.{
  ℕ, ◌+◌, Bool, true, false, ◌&&◌, ◌||◌, List, [], ◌∷◌, leb, eqb, if◌then◌else◌,
}

-- The code points of a text.
abbrev pub codes : String → List ℕ
codes String.[] = []
codes (String.◌∷◌ c s) = code c ∷ codes s

-- `str.lower` as far as it yields ASCII: A to Z, the Kelvin sign, and the dotted capital I, which
-- becomes an `i` and a combining dot. Other characters never turn into ASCII and are kept.
abbrev pub lower : List ℕ → List ℕ
lower [] = []
lower (c ∷ cs) =
    if leb b'A' c && leb c b'Z'
    then (c + 32) ∷ lower cs
    else if eqb c 0x212a
    then b'k' ∷ lower cs
    else if eqb c 0x130
    then b'i' ∷ 0x307 ∷ lower cs
    else c ∷ lower cs

abbrev pub is_separator : ℕ → Bool
is_separator c = eqb c b'_' || (eqb c b'-' || eqb c b' ')

abbrev pub strip_separators : List ℕ → List ℕ
strip_separators [] = []
strip_separators (c ∷ cs) = if is_separator c then strip_separators cs else c ∷ strip_separators cs

-- `_normalized`
unfoldable pub normalized : String → List ℕ
normalized key = strip_separators (lower (codes key))

abbrev pub is_prefix : List ℕ → List ℕ → Bool
is_prefix [] ys = true
is_prefix (x ∷ xs) [] = false
is_prefix (x ∷ xs) (y ∷ ys) = eqb x y && is_prefix xs ys

-- `root in text`
abbrev pub is_infix : List ℕ → List ℕ → Bool
is_infix xs [] = is_prefix xs []
is_infix xs (y ∷ ys) = is_prefix xs (y ∷ ys) || is_infix xs ys

abbrev pub any_infix : List String → List ℕ → Bool
any_infix [] text = false
any_infix (r ∷ rs) text = is_infix (codes r) text || any_infix rs text

-- `_is_sensitive`
unfoldable pub is_sensitive : List String → String → Bool
unfolding normalized
is_sensitive roots key = any_infix roots (normalized key)

-- `DEFAULT_SENSITIVE_KEYS`
abbrev pub default_sensitive_keys : List String
default_sensitive_keys =
    "password" ∷ "secret" ∷ "token" ∷ "apikey" ∷ "authorization" ∷ "auth" ∷ "credential"
    ∷ "credentials" ∷ "privatekey" ∷ "cookie" ∷ "session" ∷ []
