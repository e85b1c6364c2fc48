-- ===== src/Approvals.antt =====
-- approvals.py: proposal-bound approvals, recorded by the configured operator and spent with the
-- token of their proposal.
pub mod Quiet
pub mod Verified
pub mod Recorded
pub mod Spent
use ops_guard.Prelude.{
  ℕ, String, Bool, true, false, ◌||◌, ◌&&◌, not, Option, none, some, List, [], ◌∷◌, ◌++◌, ◌==◌, eqb,
  if◌then◌else◌,
}
use ops_guard.Errors.{
  Error, Result, ok, err, proposal_error, approval_error, host_supplied, operator_mismatch,
  replayed, already_recorded, invocation_mismatch, integrity_error,
}
use ops_guard.Store.{
  ProposalRow, ApprovalRow, ApprovalState, recorded, BindingRow, Db, proposal_by_token,
  approval_by_token, spend_rows, spendable, is_active, is_recorded,
}
use ops_guard.Env.{Env}
use ops_guard.Invocation.{Invocation}
use ops_guard.World.{
  World, Exec, pure, raise, lift, ◌>>=◌, ◌>>◌, gets, modify, now, new_uuid, sqlite, transaction,
  read,
}
use ops_guard.Proposals.{
  FrozenProposal, token_digest, resolve, resolve_on, fetch_by_id_on, fetch_binding_on,
}

pub record ApprovalDecision : Type 0 where
  pub approval_id : String
  pub proposal_id : String
  pub invocation_digest : String

abbrev stored_digest : Option BindingRow → Option String
stored_digest none = none
stored_digest (some b) = some b.binding_digest

abbrev pub approval_clashes : ApprovalRow → List ApprovalRow → Bool
approval_clashes a [] = false
approval_clashes a (r ∷ rs) =
    r.approval_id == a.approval_id || (r.token_digest == a.token_digest || approval_clashes a rs)

-- The stored approval is bound to the live proposal.
abbrev pub is_bound : FrozenProposal → ApprovalRow → Bool
is_bound frozen row =
    frozen.proposal_id == row.proposal_id
    && (frozen.invocation_digest == row.invocation_digest
        && (frozen.invocation.runbook_revision_hash == row.runbook_revision_hash
            && eqb frozen.expires_at row.expires_at))

-- `binding is None or recorded_digest is None or binding["digest"] != recorded_digest`, negated
abbrev pub same_binding : Option BindingRow → Option String → Bool
same_binding (some b) (some recorded_digest) = b.binding_digest == recorded_digest
same_binding _ _ = false

module _ (env : Env) where
  -- `ApprovalStore.insert_on`, with the handler that both callers put around it
  unfoldable pub insert_approval : ApprovalRow → Exec (Unit {0})
  insert_approval row w =
      if approval_clashes row w.db.approvals
      then raise (already_recorded "this proposal already carries an approval") w
      else (sqlite env >> modify (λ db. record db { approvals = db.approvals ++ row ∷ [] })) w

  abbrev pub new_approval : String → String → FrozenProposal → ℕ → Option String → ApprovalRow
  new_approval id operator frozen created binding = record {
    approval_id = id;
    token_digest = frozen.token_digest;
    proposal_id = frozen.proposal_id;
    operator_identity = operator;
    invocation_digest = frozen.invocation_digest;
    runbook_revision_hash = frozen.invocation.runbook_revision_hash;
    expires_at = frozen.expires_at;
    created_at = created;
    state = recorded;
    used_at = none;
    execution_binding_digest = binding;
  }

  -- The rest of the transaction: the record is built and inserted.
  record_for : String → FrozenProposal → ℕ → Option String → Exec ApprovalRow
  unfolding insert_approval
  record_for operator frozen created binding = do
    id ← new_uuid env
    insert_approval (new_approval id operator frozen created binding)
    pure (new_approval id operator frozen created binding)

  -- `ApprovalVerifier.record_approval`; `configured` is the verifier's operator identity.
  unfoldable pub record_approval : String → String → String → Exec ApprovalRow
  unfolding record_for
  record_approval configured token presented =
      if presented == configured
      then transaction env (do
        created ← now env
        frozen ← resolve_on env token none
        binding ← fetch_binding_on env frozen.proposal_id
        record_for configured frozen created (stored_digest binding))
      else raise (operator_mismatch "only the configured operator may record approval")

  record_bound : String → FrozenProposal → ℕ → Option BindingRow → Exec ApprovalRow
  unfolding record_for
  record_bound operator frozen created none =
      raise (proposal_error "this proposal predates execution binding and cannot be approved")
  record_bound operator frozen created (some b) =
      record_for operator frozen created (some b.binding_digest)

  -- `ApprovalVerifier.record_approval_by_proposal_id`
  unfoldable pub record_approval_by_proposal_id : String → String → String → Exec ApprovalRow
  unfolding record_bound
  record_approval_by_proposal_id configured proposal_id presented =
      if presented == configured
      then transaction env (do
        created ← now env
        frozen ← fetch_by_id_on env proposal_id
        binding ← fetch_binding_on env proposal_id
        record_bound configured frozen created binding)
      else raise (operator_mismatch "only the configured operator may record approval")

  -- The checks of `verify` on the stored approval
  unfoldable pub check_approval : String → Option ApprovalRow → Result ApprovalRow
  check_approval configured none =
      err (host_supplied "no server-recorded approval exists for this token")
  check_approval configured (some row) =
      if row.operator_identity == configured
      then (if is_recorded row.state then ok row else err (replayed "approval was already spent"))
      else err (operator_mismatch "recorded approval does not belong to the configured operator")

  decide : ApprovalRow → FrozenProposal → Option BindingRow → Result ApprovalDecision
  decide row frozen binding =
      if same_binding binding row.execution_binding_digest
      then ok (record {
        approval_id = row.approval_id;
        proposal_id = frozen.proposal_id;
        invocation_digest = frozen.invocation_digest;
      })
      else err
          (invocation_mismatch "the recorded approval is bound to a different execution binding")

  -- `ApprovalVerifier.verify`
  unfoldable pub verify : String → String → String → Exec ApprovalDecision
  unfolding decide
  verify configured token presented =
      if presented == configured
      then (do
        row ← read env (do
          found ← gets (λ db. approval_by_token db (token_digest env token))
          lift (check_approval configured found))
        frozen ← resolve env token none
        if is_bound frozen row
            then (do
              binding ← read env (fetch_binding_on env frozen.proposal_id)
              lift (decide row frozen binding))
            else raise
                (invocation_mismatch "recorded approval diverges from the live frozen proposal"))
      else raise
          (operator_mismatch "presented operator identity does not match the configured operator")

  -- The state of the proposal with this token, as the flip reads it
  abbrev was_consumed : Option ProposalRow → Bool
  was_consumed none = false
  was_consumed (some row) = not (is_active row.state)

  abbrev unjoined : Error
  unjoined = approval_error "approval flip must join the consumption of its own proposal"

  -- `ApprovalStore.mark_used_on`, and the replay that a failed swap means
  flip : String → Exec (Unit {0})
  flip digest = do
    moment ← now env
    applied ← gets (λ db. spendable digest db.approvals)
    sqlite env
    modify (λ db. record db { approvals = spend_rows digest moment db.approvals })
    if applied then pure tt else raise (replayed "approval was already spent")

  -- `ApprovalVerifier.mark_used_append`
  unfoldable pub mark_used_append : String → String → Exec (Unit {0})
  unfolding flip
  mark_used_append token consumed_digest =
      if consumed_digest == token_digest env token
      then (do
        row ← gets (λ db. proposal_by_token db (token_digest env token))
        if was_consumed row then flip (token_digest env token) else raise unjoined)
      else raise unjoined

  -- Nothing to spend on the standing path
  flip_if_any : String → Option ApprovalRow → Exec (Unit {0})
  unfolding flip
  flip_if_any digest none = pure tt
  flip_if_any digest (some _) = flip digest

  -- `ApprovalVerifier.spend_approval_append`
  unfoldable pub spend_approval_append : String → String → Exec (Unit {0})
  unfolding flip_if_any
  spend_approval_append token consumed_digest =
      if consumed_digest == token_digest env token
      then (do
        row ← gets (λ db. proposal_by_token db (token_digest env token))
        found ← gets (λ db. approval_by_token db (token_digest env token))
        if was_consumed row then flip_if_any (token_digest env token) found else raise unjoined)
      else raise unjoined
