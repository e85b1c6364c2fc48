-- ===== src/Store/Rows.antt =====
-- What the updates of the tables do to the rows that the queries find.
use ops_guard.Prelude.{ℕ, String, true, some, List, [], ◌∷◌, ◌==◌, ◌≡◌, arith, find, ltb}
use package.ops_guard.Store.{
  ProposalRow, ApprovalRow, is_active, consume_row, consume_rows, consumable, spend_row, spend_rows,
}

module _ (digest : String) (now : ℕ) where
  -- The update does not move a row, nor change its token.
  pub find-consume_rows :
      (rows : List ProposalRow) {row : ProposalRow}
      → find (λ r. r.token_digest == digest) rows ≡ some row
      → find (λ r. r.token_digest == digest) (consume_rows digest now rows)
        ≡ some (consume_row digest now row)
  unfolding consume_rows consume_row find
  find-consume_rows [] h = absurd (ground arith)
  find-consume_rows (r ∷ rows) {row} h = ground (arith, find-consume_rows rows {row = row})

  -- The update applies where the query finds an active and unexpired row.
  pub find-consumable :
      (rows : List ProposalRow) {row : ProposalRow}
      → find (λ r. r.token_digest == digest) rows ≡ some row
      → is_active row.state ≡ true
      → ltb now row.expires_at ≡ true
      → consumable digest now rows ≡ true
  unfolding consumable find
  find-consumable [] h s t = absurd (ground arith)
  find-consumable (r ∷ rows) {row} h s t = ground (arith, find-consumable rows {row = row})

  pub find-spend_rows :
      (rows : List ApprovalRow) {row : ApprovalRow}
      → find (λ r. r.token_digest == digest) rows ≡ some row
      → find (λ r. r.token_digest == digest) (spend_rows digest now rows)
        ≡ some (spend_row digest now row)
  unfolding spend_rows spend_row find
  find-spend_rows [] h = absurd (ground arith)
  find-spend_rows (r ∷ rows) {row} h = ground (arith, find-spend_rows rows {row = row})
