-- ===== src/Tools/Convert.antt =====
-- proposal_tool.py and retrieval.py: a call whose exceptions are converted does what the call does.
use ops_guard.Prelude.{◌≡◌, refl, ◌∙◌, ap, arith}
use ops_guard.Errors.{Error, Result, ok, err, convert, convert-ok}
use ops_guard.World.{World, Exec}
use package.ops_guard.Tools.{converted}

module _ {A : Type 0} (f : Error → Error) where
  pub converted-ok :
      (m : Exec A) (w : World) {a : A} {w' : World}
      → converted f m w ≡ (ok a, w')
      → m w ≡ (ok a, w')
  unfolding converted
  converted-ok m w {a} {w'} h =
      ap (λ r. (r, (m w).1)) (convert-ok f (m w).0 (ap (λ x. x.0) h))
      ∙ ap (λ v. (ok a, v)) (ap (λ x. x.1) h)

  pub converted-err :
      (m : Exec A) (w : World) {e : Error} {w' : World}
      → converted f m w ≡ (err e, w')
      → (x : Error) × (m w ≡ (err x, w'))
  unfolding converted
  converted-err m w {e} {w'} h = split (m w).0 refl (ap (λ x. x.0) h)
    where
      split : (r : Result A) → (m w).0 ≡ r → convert f r ≡ err e → (x : Error) × (m w ≡ (err x, w'))
      split (ok a) is bad = absurd (ground arith)
      split (err x) is bad = (x, ap (λ r. (r, (m w).1)) is ∙ ap (λ v. (err x, v)) (ap (λ x. x.1) h))
