-- ===== src/World/Runs.antt =====
-- Calls that run at most one script, and one of which something is known.
use ops_guard.Prelude.{Bool, true, false, ◌∷◌, ◌≡◌, refl, ◌∙◌, ap, if◌then◌else◌}
use ops_guard.Errors.{Result, ok, err}
use ops_guard.World.{World, Exec, Dispatch, continue, ◌>>=◌, run_script}
use ops_guard.World.Within.{Within}
use ops_guard.World.Quiet.{IsQuiet}

-- Between the two worlds nothing ran, or one dispatch of which `P` holds.
pub data Runs (P : Dispatch → Type 0) (w w' : World) : Type 0 where
  nothing : w'.ran ≡ w.ran → Runs P w w'
  one : (d : Dispatch) → w'.ran ≡ d ∷ w.ran → P d → Runs P w w'

continue-Quiet :
    {A B : Type 0} (r : Result A) (f : A → Exec B)
    → ((a : A) → IsQuiet (f a))
    → IsQuiet (continue r f)
continue-Quiet (ok a) f kf = record { at = λ w. (kf a).at w }
continue-Quiet (err e) f kf = record { at = λ w. refl }

module _ {P : Dispatch → Type 0} where
  pub quiet_before : {u v w : World} → v.ran ≡ u.ran → Runs P v w → Runs P u w
  quiet_before q (nothing p) = nothing (p ∙ q)
  quiet_before q (one d p h) = one d (p ∙ ap (λ r. d ∷ r) q) h

  pub quiet_after : {u v w : World} → Runs P u v → w.ran ≡ v.ran → Runs P u w
  quiet_after (nothing p) q = nothing (q ∙ p)
  quiet_after (one d p h) q = one d (q ∙ p) h

  pub Runs-none : {X : Type 0} (m : World → X × World) → IsQuiet m → Within (Runs P) m
  Runs-none m k = record { at = λ w. nothing (k.at w) }

  pub Runs-script : (d : Dispatch) → P d → Within (Runs P) (run_script d)
  Runs-script d h = record { at = λ w. one d refl h }

  continue-Runs :
      {A B : Type 0} (r : Result A) (f : A → Exec B)
      → ((a : A) → Within (Runs P) (f a))
      → Within (Runs P) (continue r f)
  continue-Runs (ok a) f kf = record { at = λ w. (kf a).at w }
  continue-Runs (err e) f kf = record { at = λ w. nothing refl }

  -- The run, if any, comes later.
  pub Runs-later :
      {A B : Type 0} (m : Exec A) (f : A → Exec B)
      → IsQuiet m
      → ((a : A) → Within (Runs P) (f a))
      → Within (Runs P) (m >>= f)
  unfolding ◌>>=◌
  Runs-later m f km kf = record {
    at = λ w. quiet_before (km.at w) ((continue-Runs (m w).0 f kf).at (m w).1);
  }

  -- The run, if any, came first.
  pub Runs-first :
      {A B : Type 0} (m : Exec A) (f : A → Exec B)
      → Within (Runs P) m
      → ((a : A) → IsQuiet (f a))
      → Within (Runs P) (m >>= f)
  unfolding ◌>>=◌
  Runs-first m f km kf = record {
    at = λ w. quiet_after (km.at w) ((continue-Quiet (m w).0 f kf).at (m w).1);
  }

  pub Runs-if :
      {A : Type 0} (b : Bool) (m n : Exec A)
      → (b ≡ true → Within (Runs P) m)
      → Within (Runs P) n
      → Within (Runs P) (if b then m else n)
  Runs-if true m n km kn = km refl
  Runs-if false m n km kn = kn

pub Runs-map :
    {P Q : Dispatch → Type 0} {u v : World} → ((d : Dispatch) → P d → Q d) → Runs P u v → Runs Q u v
Runs-map f (nothing p) = nothing p
Runs-map f (one d p h) = one d p (f d h)
