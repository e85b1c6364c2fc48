-- ===== src/Approvals/Recorded.antt =====
-- approvals.py: what recording an approval by proposal id has established.
use ops_guard.Prelude.{
  ℕ, suc, String, false, Option, none, some, [], ◌∷◌, ◌++◌, ◌==◌, ◌≡◌, refl, sym, ◌∙◌, ap, subst,
  arith, eq_iff, inl, inr,
}
use ops_guard.Errors.{ok}
use ops_guard.Store.{ApprovalRow, BindingRow, recorded, proposal_by_id, binding_by_id}
use ops_guard.Env.{Env, aware}
use ops_guard.World.{World, now, new_uuid, sqlite, ◌>>=◌}
use ops_guard.World.Steps.{bind-ok, if-ok, ok-injective}
use ops_guard.World.Atomic.{begun, transaction-done}
use ops_guard.Proposals.{FrozenProposal, fetch_by_id_on, fetch_binding_on}
use ops_guard.Proposals.Eligible.{IsEligible, now-ok, fetch_by_id_on-IsEligible}
use package.ops_guard.Approvals.{
  new_approval, insert_approval, record_for, record_bound, approval_clashes,
  record_approval_by_proposal_id,
}

module _ (env : Env) where
  -- The unspent approval, by the operator, of a proposal with an execution binding
  pub record IsApprovalOf (operator : String) (frozen : FrozenProposal) (binding : BindingRow)
      (row : ApprovalRow) : Type 0 where
    pub operator_identity : row.operator_identity ≡ operator
    pub token_digest : row.token_digest ≡ frozen.token_digest
    pub proposal_id : row.proposal_id ≡ frozen.proposal_id
    pub invocation_digest : row.invocation_digest ≡ frozen.invocation_digest
    pub revision : row.runbook_revision_hash ≡ frozen.invocation.runbook_revision_hash
    pub expires_at : row.expires_at ≡ frozen.expires_at
    pub state : row.state ≡ recorded
    pub used_at : row.used_at ≡ none
    pub bound : row.execution_binding_digest ≡ some binding.binding_digest

  -- The approval is of the live proposal, with its execution binding, and is the newest row. The
  -- clock is read twice: for the time of the approval, then for the expiry of the proposal.
  pub record IsRecording (operator id : String) (before after : World) (row : ApprovalRow)
      : Type 0 where
    pub created_at : env.moment before.ticks ≡ aware row.created_at
    pub frozen : FrozenProposal
    pub live : IsEligible env (proposal_by_id before.db id) none (suc before.ticks) frozen
    pub binding : BindingRow
    pub stored : binding_by_id before.db id ≡ some binding
    pub is_row : IsApprovalOf operator frozen binding row
    pub first : approval_clashes row before.db.approvals ≡ false
    pub added : after.db.approvals ≡ before.db.approvals ++ row ∷ []
    pub proposals : after.db.proposals ≡ before.db.proposals

  insert_approval-ok :
      (row : ApprovalRow) (w : World) {u : Unit {0}} {w' : World}
      → insert_approval env row w ≡ (ok u, w')
      → (approval_clashes row w.db.approvals ≡ false)
        × (w'.db.approvals ≡ w.db.approvals ++ row ∷ [])
        × (w'.db.proposals ≡ w.db.proposals)
  unfolding insert_approval sqlite ◌>>=◌
  insert_approval-ok row w h = ground arith

  record_for-ok :
      (operator : String) (frozen : FrozenProposal) (created : ℕ) (digest : Option String)
      (w : World) {row : ApprovalRow} {w' : World}
      → record_for env operator frozen created digest w ≡ (ok row, w')
      → (id : String) × (row ≡ new_approval env id operator frozen created digest)
        × (approval_clashes row w.db.approvals ≡ false)
        × (w'.db.approvals ≡ w.db.approvals ++ row ∷ [])
        × (w'.db.proposals ≡ w.db.proposals)
  unfolding record_for new_uuid
  record_for-ok operator frozen created digest w {row} {w'} h =
      bind-ok (new_uuid env) _ w h λ id w1 p h1.
        let new = new_approval env id operator frozen created digest in
        bind-ok (insert_approval env new) _ w1 h1 λ _ w2 q h2.
          let (first, added, kept) = insert_approval-ok new w1 q in
          let is : new ≡ row = ok-injective (ap (λ x. x.0) h2) in
          let end : w2.db ≡ w'.db = ap (λ x. x.1.db) h2 in
          let start : w1.db ≡ w.db = sym (ap (λ x. x.1.db) p) in
          (
            id,
            sym is,
            subst (λ r. approval_clashes r w.db.approvals ≡ false) is
                (ap (λ db. approval_clashes new db.approvals) (sym start) ∙ first),
            subst (λ r. w'.db.approvals ≡ w.db.approvals ++ r ∷ []) is
                (ap (λ db. db.approvals) (sym end)
                  ∙ added
                  ∙ ap (λ db. db.approvals ++ new ∷ []) start),
            ap (λ db. db.proposals) (sym end) ∙ kept ∙ ap (λ db. db.proposals) start,
          )

  record_bound-ok :
      (operator : String) (frozen : FrozenProposal) (created : ℕ) (found : Option BindingRow)
      (w : World) {row : ApprovalRow} {w' : World}
      → record_bound env operator frozen created found w ≡ (ok row, w')
      → (b : BindingRow) × (found ≡ some b)
        × (record_for env operator frozen created (some b.binding_digest) w ≡ (ok row, w'))
  unfolding record_bound
  record_bound-ok operator frozen created none w h = absurd (ground arith)
  record_bound-ok operator frozen created (some b) w h = (b, refl, h)

  new_approval-IsApprovalOf :
      (id operator : String) (frozen : FrozenProposal) (created : ℕ) (b : BindingRow)
      {row : ApprovalRow}
      → row ≡ new_approval env id operator frozen created (some b.binding_digest)
      → IsApprovalOf operator frozen b row
  new_approval-IsApprovalOf id operator frozen created b h = record {
    operator_identity = ap (λ r. r.operator_identity) h;
    token_digest = ap (λ r. r.token_digest) h;
    proposal_id = ap (λ r. r.proposal_id) h;
    invocation_digest = ap (λ r. r.invocation_digest) h;
    revision = ap (λ r. r.runbook_revision_hash) h;
    expires_at = ap (λ r. r.expires_at) h;
    state = ap (λ r. r.state) h;
    used_at = ap (λ r. r.used_at) h;
    bound = ap (λ r. r.execution_binding_digest) h;
  }

  -- Recording an approval by its proposal's id returns for the configured operator only, and then:
  -- the stored proposal was active, and its expiry not passed, by the clock as this call read it; its
  -- frozen bytes had their digest; it has an execution binding; its token had no approval yet; and
  -- the new row, for this proposal, binding and operator, is the only change to the approvals. The
  -- proposals stay as they are.
  pub record_approval_by_proposal_id-IsRecording :
      (configured id presented : String) (w : World) {row : ApprovalRow} {w' : World}
      → record_approval_by_proposal_id env configured id presented w ≡ (ok row, w')
      → (presented ≡ configured) × IsRecording configured id (begun env w) w' row
  unfolding record_approval_by_proposal_id fetch_binding_on
  record_approval_by_proposal_id-IsRecording configured id presented w {row} {w'} h =
      elim (if-ok (presented == configured) _ _ w h) [
        | inr (_, bad) ↦ absurd (ground arith)
        | inl (same, go) ↦
            let (v, body, committed) = transaction-done env _ w go in
            let u = begun env w in
            (
              (eq_iff _ _).0 same,
              bind-ok (now env) _ u body λ created w1 p h1.
                  bind-ok (fetch_by_id_on env id) _ w1 h1 λ frozen w2 q h2.
                    bind-ok (fetch_binding_on env id) _ w2 h2 λ found w3 r h3.
                      let (at, next) = now-ok env u p in
                      let (live, same2) = fetch_by_id_on-IsEligible env id w1 q in
                      let (b, is, go3) = record_bound-ok configured frozen created found w3 h3 in
                      let (approval, is_row, first, added, kept) =
                        record_for-ok configured frozen created _ w3 go3 in
                      let db2 : w2.db ≡ u.db = ap (λ x. x.db) same2 ∙ ap (λ x. x.db) next in
                      let db3 : w3.db ≡ u.db = sym (ap (λ x. x.1.db) r) ∙ db2 in
                      record {
                        created_at = at ∙ ap aware (sym (ap (λ x. x.created_at) is_row));
                        frozen = frozen;
                        live =
                            subst (λ x. IsEligible env (proposal_by_id x.db id) none x.ticks frozen)
                              next live;
                        binding = b;
                        stored =
                            ap (λ db. binding_by_id db id) (sym db2)
                            ∙ ok-injective (ap (λ x. x.0) r)
                            ∙ is;
                        is_row =
                            new_approval-IsApprovalOf approval configured frozen created b is_row;
                        first = ap (λ db. approval_clashes row db.approvals) (sym db3) ∙ first;
                        added =
                            ap (λ db. db.approvals) committed
                            ∙ added
                            ∙ ap (λ db. db.approvals ++ row ∷ []) db3;
                        proposals =
                            ap (λ db. db.proposals) committed ∙ kept ∙ ap (λ db. db.proposals) db3;
                      },
            )
      ]
