-- ===== src/Runbooks/Search/Best.antt =====
-- retrieval.py: `search` returns the best-scored passages of the library, in order.
use mathlib.Core.List.{Memᴰ}
use ops_guard.Prelude.{
  ℕ, zero, suc, ◌<◌, ◌≤◌, String, true, false, List, [], ◌∷◌, ◌≡◌, refl, ap, arith, ltb, not, inl,
  inr, ◌⊎◌, subst, sym, length, not-true, ltb→lt, ◌∙◌,
}
use ops_guard.Prelude.{take}
use ops_guard.Prelude.Members.{mem-left, mem-right, mem-split, take-mem, length-take}
use ops_guard.Errors.{ok, check-ok, ok-injective}
use ops_guard.Text.{Term, terms, is_blank}
use package.ops_guard.Runbooks.{RunbookRevision, Library, Passage}
use package.ops_guard.Runbooks.Search.{
  SearchResult, result, keep, score, score_passages, score_all, ranks, sort, search_library,
}
use package.ops_guard.Runbooks.Search.Sorted.{
  IsRanked, sort-IsRanked, sort-mem, mem-sort, take-IsRanked, take-Leads,
}

-- A passage of the library, scored against the wanted terms
pub record IsHit (library : Library) (wanted : List Term) (x : SearchResult) : Type 0 where
  pub revision : RunbookRevision
  pub of_library : Memᴰ revision library
  pub passage : Passage
  pub of_revision : Memᴰ passage revision.passages
  pub is : x ≡ result revision passage (score wanted revision passage)
  pub positive : 0 < score wanted revision passage

mem-score_passages :
    (wanted : List Term) (r : RunbookRevision) (ps : List Passage) (p : Passage)
    → Memᴰ p ps
    → 0 < score wanted r p
    → Memᴰ (result r p (score wanted r p)) (score_passages wanted r ps)
unfolding score_passages
mem-score_passages wanted r [] p m h = elim m [ ]
mem-score_passages wanted r (q ∷ ps) p (Memᴰ.head e) h =
    subst
      (λ x.
        Memᴰ (result r p (score wanted r p))
          (keep r x (score wanted r x) (score_passages wanted r ps)))
      e (kept (score wanted r p) h)
  where
    kept : (n : ℕ) → 0 < n → Memᴰ (result r p n) (keep r p n (score_passages wanted r ps))
    kept zero lt = absurd (omega arith)
    kept (suc n) lt = Memᴰ.head refl
mem-score_passages wanted r (q ∷ ps) p (Memᴰ.tail m) h =
    later (score wanted r q) (mem-score_passages wanted r ps p m h)
  where
    later :
        (n : ℕ)
        → Memᴰ (result r p (score wanted r p)) (score_passages wanted r ps)
        → Memᴰ (result r p (score wanted r p)) (keep r q n (score_passages wanted r ps))
    later zero t = t
    later (suc n) t = Memᴰ.tail t

mem-score_all :
    (wanted : List Term) (library : Library) (r : RunbookRevision) (p : Passage)
    → Memᴰ r library
    → Memᴰ p r.passages
    → 0 < score wanted r p
    → Memᴰ (result r p (score wanted r p)) (score_all wanted library)
unfolding score_all
mem-score_all wanted [] r p m n h = elim m [ ]
mem-score_all wanted (q ∷ rs) r p (Memᴰ.head e) n h = mem-left (score_all wanted rs) (
    subst (λ x. Memᴰ (result r p (score wanted r p)) (score_passages wanted x x.passages)) e
      (mem-score_passages wanted r r.passages p n h))
mem-score_all wanted (q ∷ rs) r p (Memᴰ.tail m) n h =
    mem-right (score_passages wanted q q.passages) (mem-score_all wanted rs r p m n h)

module _ (library : Library) (wanted : List Term) where
  keep-IsHit :
      (r : RunbookRevision) (p : Passage) (rest : List SearchResult) (x : SearchResult) (n : ℕ)
      → Memᴰ r library
      → Memᴰ p r.passages
      → score wanted r p ≡ n
      → (Memᴰ x rest → IsHit library wanted x)
      → Memᴰ x (keep r p n rest)
      → IsHit library wanted x
  keep-IsHit r p rest x zero m n e k t = k t
  keep-IsHit r p rest x (suc s) m n e k (Memᴰ.head is) = record {
    revision = r;
    of_library = m;
    passage = p;
    of_revision = n;
    is = is ∙ ap (result r p) (sym e);
    positive = omega (arith, e);
  }
  keep-IsHit r p rest x (suc s) m n e k (Memᴰ.tail t) = k t

  -- What the scoring of one revision leaves
  score_passages-IsHit :
      (r : RunbookRevision)
      → Memᴰ r library
      → (ps : List Passage) → ((p : Passage) → Memᴰ p ps → Memᴰ p r.passages)
      → (x : SearchResult) → Memᴰ x (score_passages wanted r ps)
      → IsHit library wanted x
  unfolding score_passages
  score_passages-IsHit r m [] f x t = elim t [ ]
  score_passages-IsHit r m (p ∷ ps) f x t =
      keep-IsHit r p (score_passages wanted r ps) x (score wanted r p) m (f p (Memᴰ.head refl)) refl
        (score_passages-IsHit r m ps (λ q n. f q (Memᴰ.tail n)) x) t

  score_all-IsHit :
      (rs : Library)
      → ((r : RunbookRevision) → Memᴰ r rs → Memᴰ r library)
      → (x : SearchResult) → Memᴰ x (score_all wanted rs)
      → IsHit library wanted x
  unfolding score_all
  score_all-IsHit [] f x t = elim t [ ]
  score_all-IsHit (r ∷ rs) f x t = elim (mem-split (score_passages wanted r r.passages) t) [
    | inl a ↦ score_passages-IsHit r (f r (Memᴰ.head refl)) r.passages (λ p n. n) x a
    | inr a ↦ score_all-IsHit rs (λ q n. f q (Memᴰ.tail n)) x a
  ]

-- The results of a search: at most the limit, in order, each a passage with a wanted term; and a
-- passage with a wanted term that is missing ranks behind them all.
pub record IsBest (library : Library) (wanted : List Term) (limit : ℕ) (hits : List SearchResult)
    : Type 0 where
  pub bounded : length hits ≤ limit
  pub ranked : IsRanked hits
  pub hit : (x : SearchResult) → Memᴰ x hits → IsHit library wanted x
  pub best :
      (r : RunbookRevision) (p : Passage)
      → Memᴰ r library
      → Memᴰ p r.passages
      → 0 < score wanted r p
      → Memᴰ (result r p (score wanted r p)) hits
        ⊎ ((h : SearchResult) → Memᴰ h hits → ranks h (result r p (score wanted r p)) ≡ true)

-- A search returns only for a question that is not blank and a limit of at least 1, and then: at
-- most `limit` results, ordered by falling score and then by runbook id and locator; each is a
-- passage of a revision of the library with at least one term of the question; and every such
-- passage that is not returned ranks behind all that are.
pub search_library-IsBest :
    (library : Library) (question : String) (limit : ℕ) (hits : List SearchResult)
    → search_library library question limit ≡ ok hits
    → (is_blank question ≡ false) × (0 < limit) × IsBest library (terms question) limit hits
unfolding search_library
search_library-IsBest library question limit hits h =
    check-ok (not (is_blank question)) _ _ h λ a h1. check-ok (ltb 0 limit) _ _ h1 λ b h2.
      let wanted = terms question in
      let all = score_all wanted library in
      let cut : IsBest library wanted limit (take limit (sort all)) = record {
        bounded = length-take limit (sort all);
        ranked = take-IsRanked limit (sort all) (sort-IsRanked all);
        hit = λ x m.
            score_all-IsHit library wanted library (λ r n. n) x
              (sort-mem x all (take-mem limit (sort all) m));
        best = λ r p m n s.
            take-Leads limit (sort all) (result r p (score wanted r p)) (sort-IsRanked all)
              (mem-sort _ all (mem-score_all wanted library r p m n s));
      } in
      (not-true _ a, ltb→lt 0 limit b, subst (IsBest library wanted limit) (ok-injective h2) cut)
