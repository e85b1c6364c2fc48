-- ===== src/Runbooks/Search/Order.antt =====
-- retrieval.py: the order of the sort in `search` is total and transitive.
use ops_guard.Prelude.{ℕ, true, false, List, [], ◌∷◌, ◌≡◌, refl, arith, inl, inr, Bool-cases, subst}
use ops_guard.Text.{codes, same, text_le}
use package.ops_guard.Runbooks.Search.{SearchResult, pair_le, ranks}

same-eq : (a b : List ℕ) → same a b ≡ true → a ≡ b
unfolding same
same-eq [] [] h = refl
same-eq (x ∷ a) (y ∷ b) h = ground (arith, same-eq a b)
same-eq [] (y ∷ b) h = absurd (ground arith)
same-eq (x ∷ a) [] h = absurd (ground arith)

same_refl : (a : List ℕ) → same a a ≡ true
unfolding same
same_refl [] = refl
same_refl (x ∷ a) = ground (arith, same_refl a)

text_le_refl : (a : List ℕ) → text_le a a ≡ true
unfolding text_le
text_le_refl [] = refl
text_le_refl (x ∷ a) = ground (arith, text_le_refl a)

text_le_total : (a b : List ℕ) → text_le a b ≡ false → text_le b a ≡ true
unfolding text_le
text_le_total [] b h = absurd (ground arith)
text_le_total (x ∷ a) [] h = refl
text_le_total (x ∷ a) (y ∷ b) h = ground (arith, text_le_total a b)

text_le_trans : (a b c : List ℕ) → text_le a b ≡ true → text_le b c ≡ true → text_le a c ≡ true
unfolding text_le
text_le_trans [] b c h k = refl
text_le_trans (x ∷ a) [] c h k = absurd (ground arith)
text_le_trans (x ∷ a) (y ∷ b) [] h k = absurd (ground arith)
text_le_trans (x ∷ a) (y ∷ b) (z ∷ c) h k = ground (arith, text_le_trans a b c)

text_le_antisymm : (a b : List ℕ) → text_le a b ≡ true → text_le b a ≡ true → same a b ≡ true
unfolding text_le same
text_le_antisymm [] [] h k = refl
text_le_antisymm [] (y ∷ b) h k = absurd (ground arith)
text_le_antisymm (x ∷ a) [] h k = absurd (ground arith)
text_le_antisymm (x ∷ a) (y ∷ b) h k = ground (arith, text_le_antisymm a b)

same_symm : (a b : List ℕ) → same a b ≡ true → same b a ≡ true
same_symm a b h = subst (λ x. same x a ≡ true) (same-eq a b h) (same_refl a)

pair_le_total : (a b c d : List ℕ) → pair_le a b c d ≡ false → pair_le c d a b ≡ true
unfolding pair_le
pair_le_total a b c d h =
    ground (arith, same_symm a c, same_symm c a, text_le_total a c, text_le_total b d)

pair_le_trans :
    (a b c d e f : List ℕ)
    → pair_le a b c d ≡ true
    → pair_le c d e f ≡ true
    → pair_le a b e f ≡ true
unfolding pair_le
pair_le_trans a b c d e f h k = elim (Bool-cases (same a c)) [
  | inl p ↦ elim (Bool-cases (same c e)) [
    | inl q ↦ ground (arith, same-eq a c p, same-eq c e q, same_refl a, text_le_trans b d f)
    | inr q ↦ ground (arith, same-eq a c p)
  ]
  | inr p ↦ elim (Bool-cases (same c e)) [
    | inl q ↦ ground (arith, same-eq c e q)
    | inr q ↦ elim (Bool-cases (same a e)) [
      | inl r ↦ absurd (ground (arith, same-eq a e r, text_le_antisymm a c))
      | inr r ↦ ground (arith, text_le_trans a c e)
    ]
  ]
]

pub ranks_total : (a b : SearchResult) → ranks a b ≡ false → ranks b a ≡ true
unfolding ranks
ranks_total a b h = ground (
  arith,
  pair_le_total (codes a.runbook_id) (codes a.locator) (codes b.runbook_id) (codes b.locator),
)

pub ranks_trans : (a b c : SearchResult) → ranks a b ≡ true → ranks b c ≡ true → ranks a c ≡ true
unfolding ranks
ranks_trans a b c h k = ground (
  arith,
  pair_le_trans (codes a.runbook_id) (codes a.locator) (codes b.runbook_id) (codes b.locator)
      (codes c.runbook_id) (codes c.locator),
)
