-- ===== src/Gate/Authorize.antt =====
-- gate.py, `execute`: one valid authorization path, standing or proposal-bound.
pub mod Idle
pub mod Facts
use ops_guard.Prelude.{
  String, Bool, true, false, Option, none, some, List, [], ◌∷◌, ◌⊕◌, if◌then◌else◌,
}
use ops_guard.Errors.{
  Error, Result, ok, err, message, is_approval_error, invocation_mismatch, unknown_token,
  token_expired, token_consumed,
}
use ops_guard.Env.{Env}
use ops_guard.World.{World, Exec}
use ops_guard.Authorization.{StandingAuthorization, ScriptIdentity, MatchResult, match}
use ops_guard.Approvals.{ApprovalDecision, verify}
use ops_guard.Proposals.{FrozenProposal}
use ops_guard.Gate.Stage.{ExecutionRequest, Gate, Refusal, Stage, pass, refuse, escape, inspect}
use ops_guard.Gate.Binding.{for_proposal}

-- `"; ".join(bits)`
unfoldable pub join : List String → String
join [] = ""
join (x ∷ []) = x
join (x ∷ y ∷ rest) = x ⊕ "; " ⊕ join (y ∷ rest)

-- The loop over the standing authorizations: whether one matches, and the reasons of those that
-- were tried before it.
unfoldable pub try_standing :
    Env
    → List StandingAuthorization
    → FrozenProposal
    → ScriptIdentity
    → Option String
    → Bool × List String
try_standing env [] frozen script profile = (false, [])
try_standing env (a ∷ rest) frozen script profile =
    let result = match env a frozen.invocation script profile in
    let (found, bits) = try_standing env rest frozen script profile in
    if result.matched then (true, []) else (found, ("standing: " ⊕ result.reason) ∷ bits)

-- The exceptions of `verify` that the gate takes as a refusal
unfoldable pub is_unapproved : Error → Bool
is_unapproved (invocation_mismatch _) = true
is_unapproved (unknown_token _) = true
is_unapproved (token_expired _) = true
is_unapproved (token_consumed _) = true
is_unapproved e = is_approval_error e

abbrev append_text : List String → String → List String
append_text [] t = t ∷ []
append_text (x ∷ xs) t = x ∷ append_text xs t

-- What `verify` returned or raised, once no standing authorization matched
settle_approval : FrozenProposal → List String → Result ApprovalDecision → Stage String
settle_approval frozen bits (ok decision) = pass "proposal-bound"
settle_approval frozen bits (err e) =
    if is_unapproved e
    then refuse (
        for_proposal frozen
          ("no authorization path: " ⊕ join (append_text bits ("approval: " ⊕ message e))) none)
    else escape e

-- The authorization path: "standing" or "proposal-bound".
unfoldable pub authorize :
    Env → Gate → ExecutionRequest → FrozenProposal → ScriptIdentity → String → Stage String
unfolding settle_approval
authorize env gate request frozen script profile =
    let (found, bits) = try_standing env gate.policy.standing frozen script (some profile) in
    if found
    then pass "standing"
    else inspect (verify env gate.configured_operator request.token gate.operator_identity)
        (settle_approval frozen bits)
