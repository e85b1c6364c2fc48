-- ===== src/Store/Guard/Fuel.antt =====
-- store.py: the loop of `_lead_keyword` ends.
use ops_guard.Prelude.{
  ℕ, zero, suc, ◌≤◌, ◌<◌, Bool, false, some, [], ◌∷◌, ◌≡◌, ◌≢◌, refl, arith, length, eqb, inl, inr,
  ◌⊎◌,
}
use package.ops_guard.Store.Guard.{
  Code, after_newline, after_block, drop2, Head, spent, Round, go, stop, round, skip,
}

length-after_newline : (c : ℕ) (cs : Code) → length (after_newline (c ∷ cs)) ≤ length cs
unfolding after_newline
length-after_newline c [] = ground arith
length-after_newline c (d ∷ cs) = ground (arith, length-after_newline d cs)

length-after_block :
    (star : Bool) (cs rest : Code) → after_block star cs ≡ some rest → length rest ≤ length cs
unfolding after_block
length-after_block star [] rest h = absurd (ground arith)
length-after_block star (c ∷ cs) rest h = ground (arith, length-after_block (eqb c b'*') cs rest)

length-drop2 : (c : ℕ) (cs : Code) → length (drop2 (c ∷ cs)) ≤ length cs
length-drop2 c [] = omega arith
length-drop2 c (d ∷ cs) = omega arith

-- Each round that goes on has taken something.
pub length-round : (cs rest : Code) → round cs ≡ go rest → length rest < length cs
unfolding round
length-round [] rest h = absurd (ground arith)
length-round (c ∷ cs) rest h = ground (
  arith,
  length-after_newline c cs,
  length-drop2 c cs,
  length-after_block false (drop2 (c ∷ cs)) rest,
)

round-cases : (r : Round) → ((rest : Code) × (r ≡ go rest)) ⊎ ((h : Head) × (r ≡ stop h))
round-cases (go rest) = inl (rest, refl)
round-cases (stop h) = inr (h, refl)

stop-ne-spent : (cs : Code) (h : Head) → round cs ≡ stop h → h ≢ spent
unfolding round
stop-ne-spent [] h e = λ f. ground arith
stop-ne-spent (c ∷ cs) h e = λ f. ground arith

-- The loop of `_lead_keyword` ends within one round more than the statement has characters.
pub skip-ne-spent : (fuel : ℕ) (cs : Code) → length cs < fuel → skip fuel cs ≢ spent
unfolding skip
skip-ne-spent zero cs h = absurd (omega arith)
skip-ne-spent (suc fuel) cs h = elim (round-cases (round cs)) [
  | inl (rest, a) ↦ rw (a, skip) (skip-ne-spent fuel rest (omega (arith, length-round cs rest a)))
  | inr (head, a) ↦ rw (a, skip) (stop-ne-spent cs head a)
]
