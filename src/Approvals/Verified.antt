-- ===== src/Approvals/Verified.antt =====
-- approvals.py: what `verify` has established when it returns.
use ops_guard.Prelude.{
  String, true, Option, none, some, ◌==◌, ◌≡◌, refl, sym, ◌∙◌, ap, subst, arith, eq_iff, inl, inr,
  Option-cases,
}
use ops_guard.Errors.{ok}
use ops_guard.Store.{
  ApprovalRow, ApprovalState, recorded, used, BindingRow, approval_by_token, proposal_by_token,
  binding_by_id, is_recorded,
}
use ops_guard.Env.{Env}
use ops_guard.World.{World, lift, gets, read, ◌>>=◌}
use ops_guard.World.Steps.{bind-ok, lift-ok, if-ok, ok-injective}
use ops_guard.World.Atomic.{looked, read-done}
use ops_guard.Proposals.Eligible.{IsEligible, ticked, resolve-IsEligible, read_binding-stored}
use ops_guard.Proposals.{FrozenProposal, token_digest, resolve, fetch_binding_on}
use package.ops_guard.Approvals.{ApprovalDecision, is_bound, check_approval, decide, verify}

-- The stored approval is of the live proposal.
pub record IsBound (frozen : FrozenProposal) (row : ApprovalRow) : Type 0 where
  pub proposal : frozen.proposal_id ≡ row.proposal_id
  pub digest : frozen.invocation_digest ≡ row.invocation_digest
  pub revision : frozen.invocation.runbook_revision_hash ≡ row.runbook_revision_hash
  pub expiry : frozen.expires_at ≡ row.expires_at

is_bound-IsBound : (f : FrozenProposal) (row : ApprovalRow) → is_bound f row ≡ true → IsBound f row
is_bound-IsBound f row h =
    let (p, d, r, e) : (f.proposal_id == row.proposal_id ≡ true)
        × (f.invocation_digest == row.invocation_digest ≡ true)
        × (f.invocation.runbook_revision_hash == row.runbook_revision_hash ≡ true)
        × (f.expires_at ≡ row.expires_at) =
      ground arith in
    record {
      proposal = (eq_iff _ _).0 p;
      digest = (eq_iff _ _).0 d;
      revision = (eq_iff _ _).0 r;
      expiry = e;
    }

-- The world that the second read of `verify`, of the token, looks at, when `w` is the one that the
-- call starts in; and the one that the third read, of the execution binding, looks at.
abbrev pub second_read : Env → World → World
second_read env w = looked env (looked env w)

abbrev pub third_read : Env → World → World
third_read env w = looked env (ticked (second_read env w))

-- What the three reads of `verify` found, each in what it had caught up with
pub record IsVerifiedApproval (env : Env) (configured token : String) (w : World)
    (decision : ApprovalDecision) : Type 0 where
  pub row : ApprovalRow
  pub found : approval_by_token (looked env w).db (token_digest env token) ≡ some row
  pub operator : row.operator_identity ≡ configured
  pub unspent : row.state ≡ recorded
  pub frozen : FrozenProposal
  pub live :
      IsEligible env
        (proposal_by_token (second_read env w).db (token_digest env token))
        none
        (second_read env w).ticks
        frozen
  pub bound : IsBound frozen row
  pub binding : BindingRow
  pub stored : binding_by_id (third_read env w).db frozen.proposal_id ≡ some binding
  pub approved : row.execution_binding_digest ≡ some binding.binding_digest
  pub approval_id : decision.approval_id ≡ row.approval_id
  pub proposal_id : decision.proposal_id ≡ frozen.proposal_id
  pub digest : decision.invocation_digest ≡ frozen.invocation_digest

is_recorded_sound : (s : ApprovalState) → is_recorded s ≡ true → s ≡ recorded
is_recorded_sound recorded h = refl
is_recorded_sound used h = absurd (ground arith)

check_approval-ok :
    (env : Env) (configured : String) (found : Option ApprovalRow) {row : ApprovalRow}
    → check_approval env configured found ≡ ok row
    → (found ≡ some row) × (row.operator_identity ≡ configured) × (is_recorded row.state ≡ true)
unfolding check_approval
check_approval-ok env configured none h = absurd (ground arith)
check_approval-ok env configured (some r) {row} h =
    let (same, s, o) : (r ≡ row)
        × (is_recorded r.state ≡ true)
        × (r.operator_identity == configured ≡ true) =
      ground arith in
    subst
      (λ x. (some r ≡ some x) × (x.operator_identity ≡ configured) × (is_recorded x.state ≡ true))
      same (refl, (eq_iff _ _).0 o, s)

decide-ok :
    (env : Env) (row : ApprovalRow) (frozen : FrozenProposal) (found : Option BindingRow)
    {d : ApprovalDecision}
    → decide env row frozen found ≡ ok d
    → (b : BindingRow) × (found ≡ some b)
      × (row.execution_binding_digest ≡ some b.binding_digest)
      × (d.approval_id ≡ row.approval_id)
      × (d.proposal_id ≡ frozen.proposal_id)
      × (d.invocation_digest ≡ frozen.invocation_digest)
unfolding decide
decide-ok env row frozen none h = absurd (ground arith)
decide-ok env row frozen (some b) h = elim (Option-cases row.execution_binding_digest) [
  | inl p ↦ absurd (ground arith)
  | inr (e, p) ↦
      let same : b.binding_digest == e ≡ true = ground arith in
      (b, refl, p ∙ ap some (sym ((eq_iff _ _).0 same)), ground arith, ground arith, ground arith)
]

module _ (env : Env) where
  -- The first read: the approval of the token, and the checks of it
  read_approval-ok :
      (configured token : String) (w : World) {row : ApprovalRow} {w' : World}
      → read env
          (do
            found ← gets (λ db. approval_by_token db (token_digest env token))
            lift (check_approval env configured found))
          w
        ≡ (ok row, w')
      → (approval_by_token (looked env w).db (token_digest env token) ≡ some row)
        × (row.operator_identity ≡ configured)
        × (is_recorded row.state ≡ true)
        × (w' ≡ looked env w)
  read_approval-ok configured token w h =
      let u = looked env w in
      bind-ok (gets (λ db. approval_by_token db (token_digest env token))) _ u (read-done env _ w h)
        λ found w1 p checked.
          let (checks, same) = lift-ok (check_approval env configured found) w1 checked in
          let (is, operator, unspent) = check_approval-ok env configured found checks in
          (ok-injective (ap (λ x. x.0) p) ∙ is, operator, unspent, same ∙ sym (ap (λ x. x.1) p))

  -- `verify` returns for the configured operator only, and then: the token has a stored approval that
  -- this operator recorded and that is not spent; the token's stored proposal is active and not
  -- expired by the clock as this call read it, and its frozen bytes have their digest; the approval
  -- is of this proposal, with its digest, runbook revision and expiry; and it was recorded for the
  -- execution binding that is stored for the proposal.
  pub verify-IsVerifiedApproval :
      (configured token presented : String) (w : World) {d : ApprovalDecision} {w' : World}
      → verify env configured token presented w ≡ (ok d, w')
      → (presented ≡ configured) × IsVerifiedApproval env configured token w d
  unfolding verify
  verify-IsVerifiedApproval configured token presented w {d} h =
      elim (if-ok (presented == configured) _ _ w h) [
        | inr (_, bad) ↦ absurd (ground arith)
        | inl (same, go) ↦ (
          (eq_iff _ _).0 same,
          bind-ok
              (read env (do
                found ← gets (λ db. approval_by_token db (token_digest env token))
                lift (check_approval env configured found)))
              _ w go
              λ row w1 p h1. bind-ok (resolve env token none) _ w1 h1 λ frozen w2 q h2.
                elim (if-ok (is_bound frozen row) _ _ w2 h2) [
                  | inr (_, bad) ↦ absurd (ground arith)
                  | inl (bound, go3) ↦
                      bind-ok (read env (fetch_binding_on env frozen.proposal_id)) _ w2 go3
                        λ b w3 r h3.
                          let (found, operator, unspent, same1) =
                            read_approval-ok configured token w p in
                          let (live, same2) = resolve-IsEligible env token none w1 q in
                          let (seen, _) = read_binding-stored env frozen.proposal_id w2 r in
                          let (binding, is, approved, id, proposal, digest) =
                            decide-ok env row frozen b (lift-ok _ w3 h3).0 in
                          record {
                            row = row;
                            found = found;
                            operator = operator;
                            unspent = is_recorded_sound row.state unspent;
                            frozen = frozen;
                            live =
                                subst
                                  (λ v.
                                    IsEligible env
                                      (proposal_by_token (looked env v).db (token_digest env token))
                                      none (looked env v).ticks frozen)
                                  same1 live;
                            bound = is_bound-IsBound frozen row bound;
                            binding = binding;
                            stored =
                                ap (λ v. binding_by_id (looked env v).db frozen.proposal_id)
                                  (sym (same2 ∙ ap (λ v. ticked (looked env v)) same1))
                                ∙ seen
                                ∙ is;
                            approved = approved;
                            approval_id = id;
                            proposal_id = proposal;
                            digest = digest;
                          }
                ],
        )
      ]
