-- ===== src/Store/Guard/Prefix.antt =====
-- store.py: what the loop of `_lead_keyword` skips.
use ops_guard.Prelude.{
  ℕ, zero, suc, ◌<◌, Bool, true, false, some, [], ◌∷◌, ◌++◌, ◌≡◌, refl, sym, ap, subst, arith,
  length, eqb, ◌&&◌,
}
use ops_guard.Text.{is_space, starts_with}
use package.ops_guard.Store.Guard.{
  Code, after_newline, after_block, is_filler, at, go, stop, round, skip,
}
use package.ops_guard.Store.Guard.Fuel.{length-round}

-- The text has no newline.
abbrev pub IsLine : Code → Type 0
IsLine [] = Unit {0}
IsLine (c ∷ cs) = (eqb c b'\n' ≡ false) × IsLine cs

-- The text has no end of a comment; the flag says that the character before is a star.
abbrev pub IsComment : Bool → Code → Type 0
IsComment star [] = Unit {0}
IsComment star (c ∷ cs) = ((star && eqb c b'/') ≡ false) × IsComment (eqb c b'*') cs

-- What may stand before the keyword: whitespace, brackets and semicolons, and comments
pub data Skips : Code → Code → Type 0 where
  here : {cs : Code} → Skips cs cs
  filler : {c : ℕ} {cs rest : Code} → is_filler c ≡ true → Skips cs rest → Skips (c ∷ cs) rest
  line :
      {whole cs rest : Code} (text : Code)
      → IsLine text
      → whole ≡ b'-' ∷ b'-' ∷ (text ++ b'\n' ∷ cs)
      → Skips cs rest
      → Skips whole rest
  block :
      {whole cs rest : Code} (text : Code)
      → IsComment false text
      → whole ≡ b'/' ∷ b'*' ∷ (text ++ b'*' ∷ b'/' ∷ cs)
      → Skips cs rest
      → Skips whole rest

after-line : (text cs : Code) → IsLine text → after_newline (text ++ b'\n' ∷ cs) ≡ cs
unfolding after_newline
after-line [] cs h = refl
after-line (c ∷ text) cs (h, hs) = rw h (after-line text cs hs)

after-comment :
    (star : Bool) (text cs : Code)
    → IsComment star text
    → after_block star (text ++ b'*' ∷ b'/' ∷ cs) ≡ some cs
unfolding after_block
after-comment true [] cs h = refl
after-comment false [] cs h = refl
after-comment star (c ∷ text) cs (h, hs) = rw h (after-comment (eqb c b'*') text cs hs)

round_line : (text cs : Code) → IsLine text → round (b'-' ∷ b'-' ∷ (text ++ b'\n' ∷ cs)) ≡ go cs
unfolding round starts_with is_space after_newline
round_line text cs h = ap go (after-line text cs h)

round_block :
    (text cs : Code)
    → IsComment false text
    → round (b'/' ∷ b'*' ∷ (text ++ b'*' ∷ b'/' ∷ cs)) ≡ go cs
unfolding round starts_with is_space
round_block text cs h = rw (after-comment false text cs h) refl

round_filler : (c : ℕ) (cs : Code) → is_filler c ≡ true → round (c ∷ cs) ≡ go cs
unfolding round
round_filler c cs h = rw h refl

-- The loop ends at the head that the grammar names.
pub skip-head :
    (fuel : ℕ) (cs rest : Code)
    → length cs < fuel
    → round rest ≡ stop (at rest)
    → Skips cs rest
    → skip fuel cs ≡ at rest
unfolding skip
skip-head zero cs rest h e s = absurd (omega arith)
skip-head (suc fuel) cs rest h e here = rw (e, skip) refl
skip-head (suc fuel) (c ∷ cs) rest h e (filler f s) =
    rw (round_filler c cs f, skip) (skip-head fuel cs rest (omega arith) e s)
skip-head (suc fuel) whole rest h e (line {cs} text l is s) =
    let turn = subst (λ x. round x ≡ go cs) (sym is) (round_line text cs l) in
    rw (turn, skip) (skip-head fuel cs rest (omega (arith, length-round whole cs turn)) e s)
skip-head (suc fuel) whole rest h e (block {cs} text l is s) =
    let turn = subst (λ x. round x ≡ go cs) (sym is) (round_block text cs l) in
    rw (turn, skip) (skip-head fuel cs rest (omega (arith, length-round whole cs turn)) e s)
