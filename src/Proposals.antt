-- ===== src/Proposals.antt =====
-- proposals.py: freeze, resolve, and consume exactly once.
pub mod Quiet
pub mod Open
pub mod Keeps
pub mod Once
pub mod Eligible
pub mod Freeze
use ops_guard.Prelude.{
  ℕ, ◌+◌, String, Bool, true, false, ◌||◌, ◌&&◌, not, Option, none, some, List, [], ◌∷◌, ◌++◌, ◌==◌,
  ltb, eqb, if◌then◌else◌,
}
use ops_guard.Json.{Json, Fields, strs, str, nat, field, end}
use ops_guard.Errors.{
  Error, Result, ok, err, unknown_token, invocation_mismatch, token_consumed, token_expired,
  frozen_tampered, proposal_error, type_error, value_error, integrity_error,
}
use ops_guard.Store.{
  ProposalRow, ProposalState, active, consumed, BindingRow, ExecutionBinding, Db, EventType,
  proposal_by_token, proposal_by_id, binding_by_id, consume_rows, consumable, is_active,
}
use ops_guard.Env.{Env}
use ops_guard.Invocation.{Invocation, canonical_bytes, parse_frozen_invocation}
use ops_guard.World.{
  World, Exec, pure, raise, lift, ◌>>=◌, ◌>>◌, gets, modify, now, new_uuid, tick, sqlite,
  transaction, read,
}
use ops_guard.Audit.{Entry, entry, append_on}
use ops_guard.ExecutionBinding.{Template, finalize, binding_digest}

pub record FrozenProposal : Type 0 where
  pub proposal_id : String
  pub invocation : Invocation
  pub invocation_digest : String
  pub token_digest : String
  pub created_at : ℕ
  pub expires_at : ℕ
  pub consumed_at : Option ℕ

-- `expected_digest is not None and expected_digest != row["invocation_digest"]`
abbrev pub diverges : Option String → String → Bool
diverges none d = false
diverges (some expected) d = not (expected == d)

-- `ProposalService._check` on a row that is there
unfoldable pub check_row : ProposalRow → Option String → ℕ → Result ProposalRow
check_row row expected moment =
    if diverges expected row.invocation_digest
    then err (invocation_mismatch "invocation digest differs from the frozen one")
    else if not (is_active row.state)
    then err (token_consumed "proposal token was already consumed")
    else if ltb moment row.expires_at
    then ok row
    else err (token_expired "proposal expiry has passed")

-- `ProposalService._check`
unfoldable pub check : Option ProposalRow → Option String → ℕ → Result ProposalRow
unfolding check_row
check none expected moment = err (unknown_token "no proposal is bound to this token")
check (some row) expected moment = check_row row expected moment

module _ (env : Env) where
  -- `ProposalService.token_digest`
  abbrev pub token_digest : String → String
  token_digest token = env.hmac_sha256 env.token_key token

  -- The proposal of a row, once its bytes have been parsed and canonicalized again.
  abbrev thaw : ProposalRow → Invocation → String → Result FrozenProposal
  thaw row invocation frozen =
      if env.sha256 frozen == row.invocation_digest
      then ok (record {
        proposal_id = row.proposal_id;
        invocation = invocation;
        invocation_digest = row.invocation_digest;
        token_digest = row.token_digest;
        created_at = row.created_at;
        expires_at = row.expires_at;
        consumed_at = row.consumed_at;
      })
      else err (frozen_tampered "frozen invocation bytes do not match the stored invocation digest")

  -- `_row_to_proposal`
  unfoldable pub row_to_proposal : ProposalRow → Result FrozenProposal
  row_to_proposal row = elim (parse_frozen_invocation env row.invocation_bytes) [
    | err e ↦ err e
    | ok invocation ↦ elim (canonical_bytes env invocation) [
      | err e ↦ err e
      | ok frozen ↦ thaw row invocation frozen
    ]
  ]

  -- `_check` and `_row_to_proposal` on what a query found
  unfoldable pub eligible : Option ProposalRow → Option String → ℕ → Result FrozenProposal
  unfolding check
  eligible found expected moment = elim (check found expected moment) [
    | err e ↦ err e
    | ok row ↦ row_to_proposal row
  ]

  -- `ProposalService.resolve_on`
  unfoldable pub resolve_on : String → Option String → Exec FrozenProposal
  resolve_on token expected = do
    found ← gets (λ db. proposal_by_token db (token_digest token))
    moment ← now env
    lift (eligible found expected moment)

  -- `ProposalService.resolve`
  unfoldable pub resolve : String → Option String → Exec FrozenProposal
  unfolding resolve_on
  resolve token expected = read env (resolve_on token expected)

  -- `ProposalService.fetch_by_id_on`
  unfoldable pub fetch_by_id_on : String → Exec FrozenProposal
  fetch_by_id_on id =
      if id == "" then raise (unknown_token "no proposal is bound to this id") else (do
        found ← gets (λ db. proposal_by_id db id)
        moment ← now env
        lift (eligible found none moment))

  -- `ProposalService.fetch_binding_on`
  unfoldable pub fetch_binding_on : String → Exec (Option BindingRow)
  fetch_binding_on id = gets (λ db. binding_by_id db id)

  -- The row that the consumption leaves
  consumed_proposal : Option ProposalRow → Result FrozenProposal
  consumed_proposal none = err (type_error "'NoneType' object is not subscriptable")
  consumed_proposal (some row) = row_to_proposal row

  -- The update did not apply: a concurrent winner or the expiry decided first.
  lost : String → Option String → Exec FrozenProposal
  lost digest expected = do
    fresh ← gets (λ db. proposal_by_token db digest)
    moment ← now env
    _ ← lift (check fresh expected moment)
    raise (proposal_error "consume did not apply although all checks passed")

  -- What follows the check in the transaction of `consume`
  consume_checked : String → Option String → (String → Exec (Unit {0})) → ℕ → Exec FrozenProposal
  unfolding consumed_proposal lost
  consume_checked digest expected same_transaction moment = do
    applied ← gets (λ db. consumable digest moment db.proposals)
    sqlite env
    modify (λ db. record db { proposals = consume_rows digest moment db.proposals })
    if applied
        then (do
          same_transaction digest
          final ← gets (λ db. proposal_by_token db digest)
          lift (consumed_proposal final))
        else lost digest expected

  -- `ProposalService.consume`
  unfoldable pub consume : String → Option String → (String → Exec (Unit {0})) → Exec FrozenProposal
  unfolding consume_checked
  consume token expected same_transaction = transaction env (do
    moment ← now env
    row ← gets (λ db. proposal_by_token db (token_digest token))
    _ ← lift (check row expected moment)
    consume_checked (token_digest token) expected same_transaction moment)
