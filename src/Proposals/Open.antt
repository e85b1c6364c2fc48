-- ===== src/Proposals/Open.antt =====
-- proposals.py: `open_proposal` freezes an invocation and issues its token.
pub mod Unended
pub mod Stored
use ops_guard.Prelude.{
  ℕ, ◌+◌, String, Bool, false, ◌||◌, Option, none, some, List, [], ◌∷◌, ◌++◌, ◌==◌, eqb,
  if◌then◌else◌,
}
use ops_guard.Json.{Json, strs}
use ops_guard.Errors.{value_error, integrity_error}
use ops_guard.Store.{ProposalRow, active, BindingRow, EventType}
use ops_guard.Env.{Env}
use ops_guard.Invocation.{Invocation, canonical_bytes}
use ops_guard.World.{
  Exec, pure, raise, lift, ◌>>=◌, ◌>>◌, modify, now, new_uuid, tick, sqlite, transaction,
}
use ops_guard.Audit.{Entry, entry, append_on}
use ops_guard.ExecutionBinding.{Template, finalize, binding_digest}
use ops_guard.Proposals.{token_digest}

pub record IssuedProposal : Type 0 where
  pub proposal_id : String
  pub token : String
  pub invocation_digest : String
  pub expires_at : ℕ

module _ (env : Env) where
  -- `proposal_id` is the primary key, and `token_digest` is unique.
  abbrev proposal_clashes : String → String → List ProposalRow → Bool
  proposal_clashes id digest [] = false
  proposal_clashes id digest (r ∷ rs) =
      r.proposal_id == id || (r.token_digest == digest || proposal_clashes id digest rs)

  abbrev binding_clashes : String → List BindingRow → Bool
  binding_clashes id [] = false
  binding_clashes id (r ∷ rs) = r.proposal_id == id || binding_clashes id rs

  -- `INSERT INTO proposals`
  insert_proposal : ProposalRow → Exec (Unit {0})
  insert_proposal row w =
      if proposal_clashes row.proposal_id row.token_digest w.db.proposals
      then raise (integrity_error "UNIQUE constraint failed: proposals") w
      else (sqlite env >> modify (λ db. record db { proposals = db.proposals ++ row ∷ [] })) w

  -- `INSERT INTO execution_bindings`
  insert_binding : BindingRow → Exec (Unit {0})
  insert_binding row w =
      if binding_clashes row.proposal_id w.db.bindings
      then raise (integrity_error "UNIQUE constraint failed: execution_bindings") w
      else (sqlite env >> modify (λ db. record db { bindings = db.bindings ++ row ∷ [] })) w

  -- The binding of the new proposal, finalized and stored
  bind : Option Template → String → String → Exec (Unit {0})
  unfolding insert_binding
  bind none id digest = pure tt
  bind (some t) id digest = do
    stored ← lift (binding_digest env (finalize t id digest))
    insert_binding
        (record { proposal_id = id; binding_digest = stored; document = finalize t id digest })

  -- The event that the insert transaction appends
  abbrev pub proposal_entry : String → String → ℕ → List String → Option Json → Entry
  proposal_entry id digest expires refs snapshot =
      let plain = entry EventType.proposal (
        strs (
          ("proposal_id", id)
          ∷ ("invocation_digest", digest)
          ∷ ("expires_at", env.format_timestamp expires)
          ∷ [])) in
      record plain { correlation_id = some id; evidence_refs = refs; judge_snapshot = snapshot }

  abbrev pub new_row : String → String → String → String → ℕ → ℕ → ProposalRow
  new_row id frozen digest token created expires = record {
    proposal_id = id;
    invocation_bytes = frozen;
    invocation_digest = digest;
    token_digest = token_digest env token;
    created_at = created;
    expires_at = expires;
    state = active;
    consumed_at = none;
  }

  -- The insert transaction of `open_proposal`
  pub store_proposal : ProposalRow → Option Template → List String → Option Json → Exec (Unit {0})
  unfolding insert_proposal bind
  store_proposal row template refs snapshot = do
    insert_proposal row
    bind template row.proposal_id row.invocation_digest
    _ ←
        append_on env
          (proposal_entry row.proposal_id row.invocation_digest row.expires_at refs snapshot)
    pure tt

  -- `ProposalService.open_proposal`. The `ttl` is in microseconds, and 0 for one that is not
  -- positive.
  unfoldable pub open_proposal :
      Invocation → ℕ → List String → Option Json → Option Template → Exec IssuedProposal
  unfolding store_proposal
  open_proposal invocation ttl refs snapshot template =
      if eqb ttl 0 then raise (value_error "ttl must be a positive timedelta") else (do
        created ← now env
        frozen ← lift (canonical_bytes env invocation)
        id ← new_uuid env
        minted ← tick
        let token = env.token_urlsafe minted
        let row = new_row id frozen (env.sha256 frozen) token created (created + ttl)
        transaction env (store_proposal row template refs snapshot)
        pure (record {
          proposal_id = id;
          token = token;
          invocation_digest = row.invocation_digest;
          expires_at = row.expires_at;
        }))
