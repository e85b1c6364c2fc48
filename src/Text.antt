-- ===== src/Text.antt =====
-- What the parsers ask of a `str`: its code points, `str.strip`, the hexadecimal pattern, the terms
-- of a question, and the order of texts.
use Prim.Native.Char.{code}
use ops_guard.Prelude.{
  ℕ, ◌+◌, String, Bool, true, false, not, ◌&&◌, ◌||◌, List, [], ◌∷◌, ◌++◌, leb, ltb, eqb,
  if◌then◌else◌, length, ◌==◌, ◌≡◌, refl, subst, arith, eq_iff, inl, inr, Bool-cases,
}

-- The code points of a text
abbrev pub codes : String → List ℕ
codes String.[] = []
codes (String.◌∷◌ c s) = code c ∷ codes s

abbrev between : ℕ → ℕ → ℕ → Bool
between low high c = leb low c && leb c high

-- `str.isspace` of one character: what `str.strip` takes away
unfoldable pub is_space : ℕ → Bool
is_space c =
    between 9 13 c
    || between 28 32 c
    || eqb c 0x85
    || eqb c 0xA0
    || eqb c 0x1680
    || between 0x2000 0x200A c
    || between 0x2028 0x2029 c
    || eqb c 0x202F
    || eqb c 0x205F
    || eqb c 0x3000

unfoldable pub all_of : (ℕ → Bool) → List ℕ → Bool
all_of p [] = true
all_of p (c ∷ cs) = p c && all_of p cs

-- `not value.strip()`
unfoldable pub is_blank : String → Bool
unfolding all_of is_space
is_blank s = all_of is_space (codes s)

unfoldable pub is_hex : ℕ → Bool
is_hex c = between b'0' b'9' c || between b'a' b'f' c

-- `_HEX64.fullmatch(value)`
unfoldable pub is_hex64 : String → Bool
unfolding all_of is_hex
is_hex64 s = eqb (length (codes s)) 64 && all_of is_hex (codes s)

-- `text.startswith(prefix)`, on code points
unfoldable pub starts_with : List ℕ → List ℕ → Bool
starts_with [] cs = true
starts_with (p ∷ ps) [] = false
starts_with (p ∷ ps) (c ∷ cs) = eqb p c && starts_with ps cs

-- `str.lower`, as far as `_TOKEN` can tell: of the characters outside ASCII only U+0130 and U+212A
-- have a lower case with an ASCII letter in it.
unfoldable pub lower : ℕ → List ℕ
lower c =
    if between b'A' b'Z' c
    then (c + 32) ∷ []
    else if eqb c 0x130
    then b'i' ∷ 0x307 ∷ []
    else if eqb c 0x212A
    then b'k' ∷ []
    else c ∷ []

unfoldable pub lowered : List ℕ → List ℕ
unfolding lower
lowered [] = []
lowered (c ∷ cs) = lower c ++ lowered cs

unfoldable pub is_term : ℕ → Bool
is_term c = between b'a' b'z' c || between b'0' b'9' c

abbrev pub Term : Type 0
Term = List ℕ

abbrev close : Term → List Term → List Term
close [] terms = terms
close (c ∷ cs) terms = (c ∷ cs) ∷ terms

-- `_TOKEN.findall`: the maximal runs, with the run so far
unfoldable pub find_terms : List ℕ → Term → List Term
unfolding is_term
find_terms [] run = close run []
find_terms (c ∷ cs) run =
    let rest = find_terms cs (run ++ c ∷ []) in
    let next = close run (find_terms cs []) in if is_term c then rest else next

-- `_terms`
unfoldable pub terms : String → List Term
unfolding find_terms lowered
terms s = find_terms (lowered (codes s)) []

unfoldable pub same : Term → Term → Bool
same [] [] = true
same (a ∷ as') (b ∷ bs) = eqb a b && same as' bs
same _ _ = false

-- `term in wanted`
unfoldable pub is_wanted : List Term → Term → Bool
unfolding same
is_wanted [] t = false
is_wanted (w ∷ ws) t = same w t || is_wanted ws t

-- `left <= right` on texts, by code points
unfoldable pub text_le : List ℕ → List ℕ → Bool
text_le [] bs = true
text_le (a ∷ as') [] = false
text_le (a ∷ as') (b ∷ bs) =
    let rest = text_le as' bs in if ltb a b then true else if eqb a b then rest else false

-- A text that passes a test which fails on the empty text is not empty.
empty_apart :
    (p : String → Bool) (b : Bool) (s : String) → p "" ≡ not b → p s ≡ b → (s == "") ≡ false
empty_apart p b s h k = elim (Bool-cases (s == "")) [
  | inl e ↦ absurd (ground (arith, subst (λ t. p t ≡ b) ((eq_iff s "").0 e) k))
  | inr e ↦ e
]

pub blank-ne-empty : (s : String) → is_blank s ≡ false → (s == "") ≡ false
unfolding is_blank all_of
blank-ne-empty s = empty_apart is_blank false s refl

pub hex-ne-empty : (s : String) → is_hex64 s ≡ true → (s == "") ≡ false
unfolding is_hex64 all_of
hex-ne-empty s = empty_apart is_hex64 true s refl
