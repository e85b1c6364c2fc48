-- ===== src/ExecutionBinding/Runner/Classified.antt =====
-- execution_binding.py: which endings of the child count as success.
use ops_guard.Prelude.{zero, suc, pos, negsuc, false, ◌≡◌, ◌↔◌, refl, arith}
use ops_guard.Env.{Host, Wait, exited, expired, wait_error}
use ops_guard.Store.{success}
use ops_guard.ExecutionBinding.Runner.{classify}

-- The child exited with 0, its pipes were closed, and neither output passed its limit.
pub record IsClean (h : Host) (w : Wait) : Type 0 where
  pub exit : w ≡ exited (pos 0)
  pub closed : h.still_open ≡ false
  pub stdout : h.stdout_overflow ≡ false
  pub stderr : h.stderr_overflow ≡ false

classify-IsClean : (h : Host) (w : Wait) → (classify h w).outcome ≡ success → IsClean h w
unfolding classify
classify-IsClean h expired e = absurd (ground arith)
classify-IsClean h wait_error e = absurd (ground arith)
classify-IsClean h (exited (pos zero)) e = record {
  exit = refl;
  closed = ground arith;
  stdout = ground arith;
  stderr = ground arith;
}
classify-IsClean h (exited (pos (suc n))) e = absurd (ground arith)
classify-IsClean h (exited (negsuc n)) e = absurd (ground arith)

IsClean-classify : (h : Host) (w : Wait) → IsClean h w → (classify h w).outcome ≡ success
unfolding classify
IsClean-classify h w c = rw (c.exit, c.closed, c.stdout, c.stderr) refl

-- An execution that was waited for succeeds exactly when the child exited with 0, with its pipes
-- closed and its outputs within their limits.
pub classify-exact : (h : Host) (w : Wait) → ((classify h w).outcome ≡ success) ↔ IsClean h w
classify-exact h w = (classify-IsClean h w, IsClean-classify h w)
