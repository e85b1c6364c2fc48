-- ===== src/Store/Guard/Stem.antt =====
-- store.py: what becomes of the first word of a statement.
use ops_guard.Prelude.{
  ℕ, ◌+◌, Bool, true, false, [], ◌∷◌, ◌++◌, ◌≡◌, refl, sym, ◌∙◌, ap, subst, arith, leb, eqb, ◌&&◌,
  ◌||◌, inl, inr, Bool-cases, if◌then◌else◌, ◌⊎◌,
}
use ops_guard.Text.{is_space, lower, lowered, starts_with}
use package.ops_guard.Store.Guard.{Code, first_word, before, rstrip, is_letter, keyword}

-- A letter, and a word of letters
abbrev pub is_alpha : ℕ → Bool
is_alpha c = leb b'a' c && leb c b'z' || leb b'A' c && leb c b'Z'

abbrev pub AreLetters : (ℕ → Bool) → Code → Type 0
AreLetters p [] = Unit {0}
AreLetters p (c ∷ cs) = (p c ≡ true) × AreLetters p cs

-- What follows the keyword cannot be taken for a part of it.
abbrev pub Ends : Code → Type 0
Ends [] = Unit {0}
Ends (c ∷ cs) = (d : ℕ) × (ds : Code) × (lower c ≡ d ∷ ds) × (is_letter d ≡ false)

-- The text is the word, or the word with something after it that is no letter.
abbrev pub Stem : Code → Code → Type 0
Stem w t = (t ≡ w) ⊎ ((d : ℕ) × (ds : Code) × (t ≡ w ++ d ∷ ds) × (is_letter d ≡ false))

Stem-cons : (c : ℕ) (w t : Code) → Stem w t → Stem (c ∷ w) (c ∷ t)
Stem-cons c w t (inl e) = inl (ap (λ x. c ∷ x) e)
Stem-cons c w t (inr (d, ds, e, h)) = inr (d, ds, ap (λ x. c ∷ x) e, h)

letter_apart : (m c : ℕ) → is_letter m ≡ false → is_letter c ≡ true → eqb m c ≡ false
letter_apart m c h l = ground arith

-- The text starts with a letter, so no marker stands there.
before_letter :
    (m : ℕ) (ms : Code) (c : ℕ) (r : Code)
    → is_letter m ≡ false
    → is_letter c ≡ true
    → before (m ∷ ms) (c ∷ r) ≡ c ∷ before (m ∷ ms) r
unfolding before starts_with
before_letter m ms c r h l = rw (letter_apart m c h l) refl

before-Stem :
    (m : ℕ) (ms w t : Code)
    → is_letter m ≡ false
    → AreLetters is_letter w
    → Stem w t
    → Stem w (before (m ∷ ms) t)
unfolding before starts_with
before-Stem m ms [] t h l (inl e) = rw e (inl refl)
before-Stem m ms [] t h l (inr (d, ds, e, k)) = elim (Bool-cases (starts_with (m ∷ ms) (d ∷ ds))) [
  | inl a ↦ rw (e, a, before) (inl refl)
  | inr a ↦ rw (e, a, before) (inr (d, before (m ∷ ms) ds, refl, k))
]
before-Stem m ms (c ∷ w) t h (l, ls) (inl e) =
    subst (Stem (c ∷ w)) (sym (ap (before (m ∷ ms)) e ∙ before_letter m ms c w h l))
      (Stem-cons c w (before (m ∷ ms) w) (before-Stem m ms w w h ls (inl refl)))
before-Stem m ms (c ∷ w) t h (l, ls) (inr (d, ds, e, k)) =
    subst (Stem (c ∷ w)) (sym (ap (before (m ∷ ms)) e ∙ before_letter m ms c (w ++ d ∷ ds) h l)) (
      Stem-cons c w (before (m ∷ ms) (w ++ d ∷ ds))
        (before-Stem m ms w (w ++ d ∷ ds) h ls (inr (d, ds, refl, k))))

rstrip_letter : (c : ℕ) (r : Code) → is_letter c ≡ true → rstrip (c ∷ r) ≡ c ∷ rstrip r
unfolding rstrip
rstrip_letter c r l = join (rstrip r) refl
  where
    join :
        (t : Code)
        → rstrip r ≡ t
        → elim t as (λ _. Code) [ [] ↦ if eqb c b';' then [] else c ∷ [] | d ∷ ds ↦ c ∷ d ∷ ds ]
          ≡ c ∷ t
    join [] e = ground arith
    join (d ∷ ds) e = refl

rstrip-Stem : (w t : Code) → AreLetters is_letter w → Stem w t → Stem w (rstrip t)
unfolding rstrip
rstrip-Stem [] t l (inl e) = rw e (inl refl)
rstrip-Stem [] t l (inr (d, ds, e, k)) = rw e (join (rstrip ds))
  where
    join :
        (r : Code)
        → Stem []
            (elim r as (λ _. Code) [ [] ↦ if eqb d b';' then [] else d ∷ [] | x ∷ xs ↦ d ∷ x ∷ xs ])
    join [] = elim (Bool-cases (eqb d b';')) [
      | inl a ↦ rw a (inl refl)
      | inr a ↦ rw a (inr (d, [], refl, k))
    ]
    join (x ∷ xs) = inr (d, x ∷ xs, refl, k)
rstrip-Stem (c ∷ w) t (l, ls) (inl e) =
    subst (Stem (c ∷ w)) (sym (ap rstrip e ∙ rstrip_letter c w l))
      (Stem-cons c w (rstrip w) (rstrip-Stem w w ls (inl refl)))
rstrip-Stem (c ∷ w) t (l, ls) (inr (d, ds, e, k)) =
    subst (Stem (c ∷ w)) (sym (ap rstrip e ∙ rstrip_letter c (w ++ d ∷ ds) l))
      (Stem-cons c w (rstrip (w ++ d ∷ ds)) (rstrip-Stem w (w ++ d ∷ ds) ls (inr (d, ds, refl, k))))

-- The keyword of a word and what follows
pub keyword-Stem :
    (w t : Code) → AreLetters is_letter w → Stem w (lowered (first_word t)) → Stem w (keyword t)
unfolding keyword
keyword-Stem w t l s =
    rstrip-Stem w _ l
      (before-Stem b'/' (b'*' ∷ []) w _ refl l (before-Stem b'-' (b'-' ∷ []) w _ refl l s))

pub alpha-lower : (c : ℕ) → is_alpha c ≡ true → (d : ℕ) × (lower c ≡ d ∷ []) × (is_letter d ≡ true)
unfolding lower
alpha-lower c h = elim (Bool-cases (leb b'A' c && leb c b'Z')) [
  | inl a ↦ (c + 32, rw (a, lower) refl, ground arith)
  | inr a ↦ (c, ground arith, ground arith)
]

alpha_space : (c : ℕ) → is_alpha c ≡ true → is_space c ≡ false
unfolding is_space
alpha_space c h = ground arith

-- The first word, in lower case, of a word and what ends it
pub first-Stem :
    (w tail : Code)
    → AreLetters is_alpha w
    → Ends tail
    → Stem (lowered w) (lowered (first_word (w ++ tail)))
unfolding lowered first_word
first-Stem [] [] l e = inl refl
first-Stem [] (c ∷ tail) l (d, ds, e, k) = elim (Bool-cases (is_space c)) [
  | inl a ↦ rw (a, first_word) (inl refl)
  | inr a ↦
      rw (a, first_word)
        (inr (d, ds ++ lowered (first_word tail), ap (λ x. x ++ lowered (first_word tail)) e, k))
]
first-Stem (c ∷ w) tail (l, ls) e =
    let (d, is, k) = alpha-lower c l in
    subst
      (λ b. Stem (lower c ++ lowered w) (lowered (if b then [] else c ∷ first_word (w ++ tail))))
      (sym (alpha_space c l))
      (subst (λ x. Stem (x ++ lowered w) (x ++ lowered (first_word (w ++ tail)))) (sym is)
        (Stem-cons d (lowered w) (lowered (first_word (w ++ tail))) (first-Stem w tail ls e)))
