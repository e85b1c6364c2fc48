-- ===== src/Runbooks/Search/Sorted.antt =====
-- retrieval.py: the sort of `search` orders its list, and a prefix of it leads the rest.
use mathlib.Core.List.{Memᴰ}
use ops_guard.Prelude.{
  ℕ, zero, suc, true, false, List, [], ◌∷◌, ◌≡◌, if◌then◌else◌, inl, inr, ◌⊎◌, Bool-cases, subst,
  sym,
}
use ops_guard.Prelude.{take}
use ops_guard.Prelude.Members.{exchange, below, take-mem}
use package.ops_guard.Runbooks.Search.{SearchResult, ranks, insert_ranked, sort}
use package.ops_guard.Runbooks.Search.Order.{ranks_total, ranks_trans}

-- The result ranks before, or level with, all of the list.
abbrev pub Leads : SearchResult → List SearchResult → Type 0
Leads x l = (y : SearchResult) → Memᴰ y l → ranks x y ≡ true

pub data IsRanked : List SearchResult → Type 0 where
  nil : IsRanked []
  cons : {x : SearchResult} {l : List SearchResult} → Leads x l → IsRanked l → IsRanked (x ∷ l)

Leads-cons :
    (x y : SearchResult) (l : List SearchResult) → ranks x y ≡ true → Leads x l → Leads x (y ∷ l)
Leads-cons x y l h k z (Memᴰ.head e) = subst (λ w. ranks x w ≡ true) (sym e) h
Leads-cons x y l h k z (Memᴰ.tail m) = k z m

-- The inserted list has the elements of both, and no other.
insert-mem :
    (x y : SearchResult) (l : List SearchResult) → Memᴰ y (insert_ranked x l) → Memᴰ y (x ∷ l)
unfolding insert_ranked
insert-mem x y [] = λ m. m
insert-mem x y (z ∷ l) =
    elim (ranks x z)
      as (λ b. Memᴰ y (if b then x ∷ z ∷ l else z ∷ insert_ranked x l) → Memᴰ y (x ∷ z ∷ l)) [
        | true ↦ λ m. m
        | false ↦ λ m. exchange (below (insert-mem x y l) m)
      ]

mem-insert :
    (x y : SearchResult) (l : List SearchResult) → Memᴰ y (x ∷ l) → Memᴰ y (insert_ranked x l)
unfolding insert_ranked
mem-insert x y [] = λ m. m
mem-insert x y (z ∷ l) =
    elim (ranks x z)
      as (λ b. Memᴰ y (x ∷ z ∷ l) → Memᴰ y (if b then x ∷ z ∷ l else z ∷ insert_ranked x l)) [
        | true ↦ λ m. m
        | false ↦ λ m. below (mem-insert x y l) (exchange m)
      ]

insert-IsRanked :
    (x : SearchResult) (l : List SearchResult) → IsRanked l → IsRanked (insert_ranked x l)
unfolding insert_ranked
insert-IsRanked x [] s = cons (λ y m. elim m [ ]) nil
insert-IsRanked x (z ∷ l) (cons h s) = elim (Bool-cases (ranks x z)) [
  | inl a ↦ rw a (cons (Leads-cons x z l a (λ y m. ranks_trans x z y a (h y m))) (cons h s))
  | inr a ↦ rw a (
      cons (λ y m. Leads-cons z x l (ranks_total x z a) h y (insert-mem x y l m))
        (insert-IsRanked x l s))
]

pub sort-IsRanked : (l : List SearchResult) → IsRanked (sort l)
unfolding sort
sort-IsRanked [] = nil
sort-IsRanked (x ∷ l) = insert-IsRanked x (sort l) (sort-IsRanked l)

pub sort-mem : (y : SearchResult) (l : List SearchResult) → Memᴰ y (sort l) → Memᴰ y l
unfolding sort
sort-mem y [] m = m
sort-mem y (x ∷ l) m = below (sort-mem y l) (insert-mem x y (sort l) m)

pub mem-sort : (y : SearchResult) (l : List SearchResult) → Memᴰ y l → Memᴰ y (sort l)
unfolding sort
mem-sort y [] m = m
mem-sort y (x ∷ l) m = mem-insert x y (sort l) (below (mem-sort y l) m)

pub take-IsRanked : (n : ℕ) (l : List SearchResult) → IsRanked l → IsRanked (take n l)
unfolding take
take-IsRanked zero l s = nil
take-IsRanked (suc n) [] s = nil
take-IsRanked (suc n) (x ∷ l) (cons h s) = cons (λ y m. h y (take-mem n l m)) (take-IsRanked n l s)

behind :
    (x y : SearchResult) (l : List SearchResult)
    → ranks x y ≡ true
    → ((h : SearchResult) → Memᴰ h l → ranks h y ≡ true)
    → (h : SearchResult) → Memᴰ h (x ∷ l)
    → ranks h y ≡ true
behind x y l k f h (Memᴰ.head e) = subst (λ w. ranks w y ≡ true) (sym e) k
behind x y l k f h (Memᴰ.tail t) = f h t

-- What is cut off ranks behind all that is returned.
pub take-Leads :
    (n : ℕ) (l : List SearchResult) (y : SearchResult)
    → IsRanked l
    → Memᴰ y l
    → Memᴰ y (take n l) ⊎ ((h : SearchResult) → Memᴰ h (take n l) → ranks h y ≡ true)
unfolding take
take-Leads zero l y s m = inr (λ h t. elim t [ ])
take-Leads (suc n) [] y s m = elim m [ ]
take-Leads (suc n) (x ∷ l) y (cons k s) (Memᴰ.head e) = inl (Memᴰ.head e)
take-Leads (suc n) (x ∷ l) y (cons k s) (Memᴰ.tail m) = elim (take-Leads n l y s m) [
  | inl t ↦ inl (Memᴰ.tail t)
  | inr f ↦ inr (behind x y (take n l) (k y m) f)
]
