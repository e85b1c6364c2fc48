-- ===== src/Gate/Authorize/Facts.antt =====
-- What the authorization has established when it passes.
use ops_guard.Prelude.{
  String, Bool, true, false, some, List, [], ◌∷◌, ◌≡◌, ◌⊎◌, inl, inr, refl, arith, Bool-cases,
  if◌then◌else◌,
}
use ops_guard.Errors.{Result, ok, err}
use ops_guard.Env.{Env}
use ops_guard.World.{World}
use ops_guard.Authorization.{StandingAuthorization, ScriptIdentity, match}
use ops_guard.Authorization.Exact.{IsExact, match-IsExact}
use ops_guard.Approvals.{ApprovalDecision, verify}
use ops_guard.Approvals.Verified.{IsVerifiedApproval, verify-IsVerifiedApproval}
use ops_guard.Proposals.{FrozenProposal}
use ops_guard.Gate.Stage.{ExecutionRequest, Gate, Stage, pass, passed, inspect}
use package.ops_guard.Gate.Authorize.{try_standing, settle_approval, authorize}

pub data Mem (a : StandingAuthorization) : List StandingAuthorization → Type 0 where
  first : {rest : List StandingAuthorization} → Mem a (a ∷ rest)
  later :
      (b : StandingAuthorization) {rest : List StandingAuthorization}
      → Mem a rest
      → Mem a (b ∷ rest)

module _ (env : Env) (gate : Gate) (request : ExecutionRequest) (frozen : FrozenProposal) where
  -- One of the policy's standing authorizations permits exactly this invocation.
  pub record IsStanding (script : ScriptIdentity) (profile : String) : Type 0 where
    pub authorization : StandingAuthorization
    pub member : Mem authorization gate.policy.standing
    pub exact : IsExact env authorization frozen.invocation script (some profile)

  -- The configured operator's approval of the token was verified, in the world `at`.
  pub record IsApproved (at : World) : Type 0 where
    pub decision : ApprovalDecision
    pub verified :
        (verify env gate.configured_operator request.token gate.operator_identity at).0
        ≡ ok decision
    pub identity : gate.operator_identity ≡ gate.configured_operator
    pub approval : IsVerifiedApproval env gate.configured_operator request.token at decision

  try_standing_sound :
      (rest : List StandingAuthorization) (script : ScriptIdentity) (profile : String)
      → (try_standing env rest frozen script (some profile)).0 ≡ true
      → (a : StandingAuthorization) × Mem a rest
        × IsExact env a frozen.invocation script (some profile)
  unfolding try_standing
  try_standing_sound [] script profile h = absurd (ground arith)
  try_standing_sound (a ∷ rest) script profile h =
      elim (Bool-cases (match env a frozen.invocation script (some profile)).matched) [
        | inl hit ↦ (a, first, (match-IsExact env a frozen.invocation script (some profile)).0 hit)
        | inr miss ↦
            let (b, m, e) = try_standing_sound rest script profile (ground arith) in
            (b, later a m, e)
      ]

  settle_approval-passed :
      (bits : List String) (r : Result ApprovalDecision) (w : World) {path : String} {w' : World}
      → settle_approval frozen bits r w ≡ (passed path, w')
      → (d : ApprovalDecision) × (r ≡ ok d) × (path ≡ "proposal-bound")
  unfolding settle_approval
  settle_approval-passed bits (ok d) w h = (d, refl, ground arith)
  settle_approval-passed bits (err e) w h = absurd (ground arith)

  abbrev pub PathOf : World → ScriptIdentity → String → String → Type 0
  PathOf at script profile path =
      (path ≡ "standing") × IsStanding script profile ⊎ (path ≡ "proposal-bound") × IsApproved at

  either-passed :
      (b : Bool) (m : Stage String) (w : World) {path : String} {w' : World}
      → (if b then pass "standing" else m) w ≡ (passed path, w')
      → (b ≡ true) × (path ≡ "standing") ⊎ (m w ≡ (passed path, w'))
  either-passed true m w h = inl (refl, ground arith)
  either-passed false m w h = inr h

  pub authorize-passed :
      (script : ScriptIdentity) (profile : String) (w : World) {path : String} {w' : World}
      → authorize env gate request frozen script profile w ≡ (passed path, w')
      → PathOf w script profile path
  unfolding authorize inspect
  authorize-passed script profile w h =
      let tried = try_standing env gate.policy.standing frozen script (some profile) in
      elim (either-passed tried.0 _ w h) [
        | inl (hit, named) ↦
            let (a, m, e) = try_standing_sound gate.policy.standing script profile hit in
            inl (named, record { authorization = a; member = m; exact = e })
        | inr go ↦
            let (d, v, named) = settle_approval-passed tried.1 _ _ go in
            let asked =
              verify env gate.configured_operator request.token gate.operator_identity w in
            let (identity, is) =
              verify-IsVerifiedApproval env gate.configured_operator request.token
                gate.operator_identity w (λ i. (v i, asked.1)) in
            inr (named, record { decision = d; verified = v; identity = identity; approval = is })
      ]
