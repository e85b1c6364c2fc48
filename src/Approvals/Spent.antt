-- ===== src/Approvals/Spent.antt =====
-- approvals.py: spending leaves no approval of the token to verify.
use ops_guard.Prelude.{
  ℕ, String, true, false, Option, none, some, ◌==◌, ◌≡◌, ◌≢◌, refl, sym, ◌∙◌, ap, subst, arith,
  eq_iff, inl, inr, find, find_sound,
}
use ops_guard.Errors.{ok}
use ops_guard.Store.{
  ApprovalRow, approval_by_token, proposal_by_token, is_recorded, spend_row, spend_rows, spendable,
}
use ops_guard.Store.Rows.{find-spend_rows}
use ops_guard.Env.{Env}
use ops_guard.World.{World, gets, modify, now, sqlite}
use ops_guard.World.Steps.{
  bind-ok, if-ok, after-ok, ok-injective, SameDb, sqlite-SameDb, now-SameDb,
}
use ops_guard.Proposals.{token_digest}
use ops_guard.Proposals.Keeps.{Keeps, keeps_rules}
use package.ops_guard.Approvals.{
  check_approval, was_consumed, flip, flip_if_any, spend_approval_append,
}

-- There is no approval of the token, or it is used.
abbrev pub IsSpent : Option ApprovalRow → Type 0
IsSpent none = Unit
IsSpent (some row) = is_recorded row.state ≡ false

module _ (env : Env) where
  flip-Keeps : (digest : String) → Keeps (flip env digest)
  unfolding flip
  flip-Keeps digest = search keeps_rules depth 12

  flip_if_any-Keeps :
      (digest : String) (found : Option ApprovalRow) → Keeps (flip_if_any env digest found)
  unfolding flip_if_any
  flip_if_any-Keeps digest none = search keeps_rules
  flip_if_any-Keeps digest (some _) = flip-Keeps digest

  pub spend-Keeps : (token digest : String) → Keeps (spend_approval_append env token digest)
  unfolding spend_approval_append
  spend-Keeps token digest = search (keeps_rules, flip_if_any-Keeps) depth 12

  spend_row-IsSpent :
      (digest : String) (t : ℕ) (row : ApprovalRow)
      → row.token_digest == digest ≡ true
      → is_recorded (spend_row digest t row).state ≡ false
  unfolding spend_row
  spend_row-IsSpent digest t row h = ground arith

  flip-IsSpent :
      (digest : String) (w : World) {row : ApprovalRow} {u : Unit {0}} {w' : World}
      → approval_by_token w.db digest ≡ some row
      → flip env digest w ≡ (ok u, w')
      → (w'.db.events ≡ w.db.events) × IsSpent (approval_by_token w'.db digest)
  unfolding flip approval_by_token
  flip-IsSpent digest w {row} {u} {w'} found h = bind-ok (now env) _ w h λ moment w1 p h1.
      bind-ok (gets (λ db. spendable digest db.approvals)) _ w1 h1 λ applied w2 q h2.
        bind-ok (sqlite env) _ w2 h2 λ _ w3 r h3.
          bind-ok (modify (λ db. record db { approvals = spend_rows digest moment db.approvals })) _
            w3 h3
            λ _ w4 s h4.
              let db3 : w3.db ≡ w.db =
                after-ok SameDb (sqlite env) w2 (sqlite-SameDb env) r
                ∙ sym (ap (λ x. x.1.db) q)
                ∙ after-ok SameDb (now env) w (now-SameDb env) p in
              let db4 : w4.db.approvals ≡ spend_rows digest moment w.db.approvals =
                sym (ap (λ x. x.1.db.approvals) s)
                ∙ ap (λ db. spend_rows digest moment db.approvals) db3 in
              elim (if-ok applied _ _ w4 h4) [
                | inr (_, bad) ↦ absurd (ground arith)
                | inl (_, done) ↦ (
                  ap (λ x. x.1.db.events) (sym done)
                      ∙ sym (ap (λ x. x.1.db.events) s)
                      ∙ ap (λ db. db.events) db3,
                  subst IsSpent
                      (sym (
                        ap (find (λ r. r.token_digest == digest))
                          (ap (λ x. x.1.db.approvals) (sym done) ∙ db4)
                        ∙ find-spend_rows digest moment w.db.approvals found))
                      (spend_row-IsSpent digest moment row
                        (find_sound (λ r. r.token_digest == digest) w.db.approvals row found)),
                )
              ]

  flip_if_any-IsSpent :
      (digest : String) (found : Option ApprovalRow) (w : World) {u : Unit {0}} {w' : World}
      → approval_by_token w.db digest ≡ found
      → flip_if_any env digest found w ≡ (ok u, w')
      → (w'.db.events ≡ w.db.events) × IsSpent (approval_by_token w'.db digest)
  unfolding flip_if_any
  flip_if_any-IsSpent digest none w found h =
      subst (λ v. (v.db.events ≡ w.db.events) × IsSpent (approval_by_token v.db digest))
        (ap (λ x. x.1) h) (refl, subst IsSpent (sym found) tt)
  flip_if_any-IsSpent digest (some row) w found h = flip-IsSpent digest w found h

  -- Spending that returns was of the token that the transaction consumes, logs nothing of its own,
  -- and leaves no unspent approval of this token.
  pub spend-IsSpent :
      (token digest : String) (w : World) {u : Unit {0}} {w' : World}
      → spend_approval_append env token digest w ≡ (ok u, w')
      → (digest ≡ token_digest env token)
        × (w'.db.events ≡ w.db.events)
        × IsSpent (approval_by_token w'.db digest)
  unfolding spend_approval_append
  spend-IsSpent token digest w {u} {w'} h =
      elim (if-ok (digest == token_digest env token) _ _ w h) [
        | inr (_, bad) ↦ absurd (ground arith)
        | inl (same, go) ↦
            let is : digest ≡ token_digest env token = (eq_iff _ _).0 same in
            let both : (w'.db.events ≡ w.db.events) × IsSpent (approval_by_token w'.db digest) =
              subst (λ d. (w'.db.events ≡ w.db.events) × IsSpent (approval_by_token w'.db d))
                (sym is)
                (bind-ok (gets (λ db. proposal_by_token db (token_digest env token))) _ w go
                  λ row w1 p h1.
                    bind-ok (gets (λ db. approval_by_token db (token_digest env token))) _ w1 h1
                      λ found w2 q h2. elim (if-ok (was_consumed env row) _ _ w2 h2) [
                        | inr (_, bad) ↦ absurd (ground arith)
                        | inl (_, flipped) ↦
                            let db2 : w2.db ≡ w.db =
                              sym (ap (λ x. x.1.db) q) ∙ sym (ap (λ x. x.1.db) p) in
                            let (logged, spent) =
                              flip_if_any-IsSpent (token_digest env token) found w2
                                (ap (λ v. approval_by_token v.db (token_digest env token))
                                    (sym (ap (λ x. x.1) q))
                                  ∙ ok-injective (ap (λ x. x.0) q))
                                flipped in
                            (logged ∙ ap (λ db. db.events) db2, spent)
                      ]) in
            (is, both.0, both.1)
      ]

  -- An approval that is spent is not verified again.
  pub check_approval-IsSpent :
      (configured : String) (found : Option ApprovalRow)
      → IsSpent found
      → (row : ApprovalRow) → check_approval env configured found ≢ ok row
  unfolding check_approval
  check_approval-IsSpent configured none s row h = ground arith
  check_approval-IsSpent configured (some r) s row h = ground arith
