-- ===== src/Store/Guard/Obscured.antt =====
-- store.py: a transaction-control statement is rejected, whatever stands before and after its keyword.
use ops_guard.Prelude.{
  ℕ, ◌+◌, String, true, false, true-ne-false, [], ◌∷◌, ◌++◌, ◌≡◌, refl, sym, ◌∙◌, ap, subst, arith,
  length, inl, inr, Bool-cases,
}
use ops_guard.Text.{codes, all_of, is_space, lowered, starts_with}
use ops_guard.Errors.{Error, Result, ok, err, ◌>>=◌, ok-injective, err-ne-ok}
use package.ops_guard.Store.Guard.{
  Code, at, stop, round, is_letter, is_word, keyword, settle, lead_of, lead_keyword,
  transaction_control, is_control, is_allowed, not_allowed, judge_lead, reject_transaction_control,
}
use package.ops_guard.Store.Guard.Prefix.{Skips, skip-head}
use package.ops_guard.Store.Guard.Stem.{
  is_alpha, AreLetters, Ends, Stem, keyword-Stem, first-Stem, alpha-lower,
}

AreLetters-lowered : (w : Code) → AreLetters is_alpha w → AreLetters is_letter (lowered w)
unfolding lowered
AreLetters-lowered [] l = tt
AreLetters-lowered (c ∷ w) (l, ls) =
    let (d, is, k) = alpha-lower c l in
    subst (λ x. AreLetters is_letter (x ++ lowered w)) (sym is) (k, AreLetters-lowered w ls)

-- A word with something that is no letter is no keyword.
not-word : (w : Code) (d : ℕ) (ds : Code) → is_letter d ≡ false → is_word (w ++ d ∷ ds) ≡ false
unfolding all_of
not-word [] d ds k = rw k refl
not-word (c ∷ []) d ds k = ground (arith, not-word [] d ds k)
not-word (c ∷ b ∷ w) d ds k = ground (arith, not-word (b ∷ w) d ds k)

round_alpha : (c : ℕ) (cs : Code) → is_alpha c ≡ true → round (c ∷ cs) ≡ stop (at (c ∷ cs))
unfolding round is_space starts_with
round_alpha c cs h = ground arith

-- A keyword that is not allowed, or an exception before there is one
rejected_lead :
    (r : Result Code)
    → ((word : Code) → r ≡ ok word → is_allowed word ≡ false)
    → (error : Error) × ((r >>= judge_lead) ≡ err error)
rejected_lead (err e) f = (e, refl)
rejected_lead (ok word) f = (not_allowed, rw (f word refl) refl)

control_refused : (w : Code) → is_control transaction_control w ≡ true → is_allowed w ≡ false
control_refused [] h = refl
control_refused (c ∷ cs) h = rw h refl

-- What a settled keyword is
settled :
    (c : ℕ) (cs word : Code)
    → settle (c ∷ cs) ≡ ok word
    → (is_word (keyword (c ∷ cs)) ≡ true) × (keyword (c ∷ cs) ≡ word)
settled c cs word h = elim (Bool-cases (is_word (keyword (c ∷ cs)))) [
  | inl a ↦ (a, ok-injective (rw a at h))
  | inr a ↦ absurd (err-ne-ok (rw a at h))
]

refused :
    (c : ℕ) (cs w word : Code)
    → is_control transaction_control w ≡ true
    → Stem w (keyword (c ∷ cs))
    → settle (c ∷ cs) ≡ ok word
    → is_allowed word ≡ false
refused c cs w word k (inl e) h =
    let (a, is) = settled c cs word h in
    subst (λ x. is_allowed x ≡ false) (sym e ∙ is) (control_refused w k)
refused c cs w word k (inr (d, ds, e, l)) h =
    let (a, is) = settled c cs word h in
    absurd (true-ne-false (sym a ∙ ap is_word e ∙ not-word w d ds l))

-- The head of a statement, after whatever may stand before it
lead-head :
    (sql : String) (c : ℕ) (cs : Code)
    → Skips (codes sql) (c ∷ cs)
    → is_alpha c ≡ true
    → lead_keyword sql ≡ settle (c ∷ cs)
unfolding lead_keyword
lead-head sql c cs s l =
    ap lead_of
      (skip-head (length (codes sql) + 1) (codes sql) (c ∷ cs) (omega arith) (round_alpha c cs l) s)

-- A statement is rejected whose keyword, in any mixture of cases, is one of the fifteen that control
-- a transaction or destroy data, whatever whitespace, brackets, semicolons and comments stand before
-- it, and whatever follows it, if that cannot be taken for a part of the word.
pub reject_obscured :
    (sql : String) (c : ℕ) (word tail : Code)
    → Skips (codes sql) (c ∷ word ++ tail)
    → AreLetters is_alpha (c ∷ word)
    → is_control transaction_control (lowered (c ∷ word)) ≡ true
    → Ends tail
    → (error : Error) × (reject_transaction_control sql ≡ err error)
unfolding reject_transaction_control
reject_obscured sql c word tail s l k e =
    let lead = lead-head sql c (word ++ tail) s l.0 in
    let stem =
      keyword-Stem (lowered (c ∷ word)) (c ∷ word ++ tail) (AreLetters-lowered (c ∷ word) l)
        (first-Stem (c ∷ word) tail l e) in
    rejected_lead (lead_keyword sql)
      (λ w h. refused c (word ++ tail) (lowered (c ∷ word)) w k stem (sym lead ∙ h))
