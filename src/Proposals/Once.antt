-- ===== src/Proposals/Once.antt =====
-- proposals.py: a token is consumed at most once.
use ops_guard.Prelude.{
  ℕ, String, true, false, Option, none, some, List, ◌==◌, ◌≡◌, ◌≢◌, refl, sym, ◌∙◌, ap, subst,
  arith, ltb, inl, inr, find, find_sound,
}
use ops_guard.Errors.{ok}
use ops_guard.Store.{
  Db, ProposalRow, consumed, is_active, proposal_by_token, consume_row, consume_rows, consumable,
}
use ops_guard.Store.Rows.{find-consume_rows, find-consumable}
use ops_guard.Env.{Env}
use ops_guard.World.{World, Exec, lift, gets, modify, now, sqlite, ◌>>=◌}
use ops_guard.World.Within.{Within}
use ops_guard.World.Steps.{
  bind-ok, lift-ok, if-ok, after-ok, ok-injective, SameDb, sqlite-SameDb, now-SameDb,
}
use ops_guard.World.Atomic.{begun, transaction-done}
use ops_guard.Proposals.Keeps.{KeepsProposals}
use package.ops_guard.Proposals.{
  FrozenProposal, token_digest, diverges, check, check_row, row_to_proposal, consumed_proposal,
  consume_checked, consume,
}

-- The row is active, unexpired and of the expected digest.
pub record IsLive (expected : Option String) (moment : ℕ) (row : ProposalRow) : Type 0 where
  pub same : diverges expected row.invocation_digest ≡ false
  pub state : is_active row.state ≡ true
  pub early : ltb moment row.expires_at ≡ true

check_row-IsLive :
    (row r : ProposalRow) (expected : Option String) (moment : ℕ)
    → check_row row expected moment ≡ ok r
    → IsLive expected moment row
unfolding check_row
check_row-IsLive row r expected moment h = record {
  same = ground arith;
  state = ground arith;
  early = ground arith;
}

pub check-IsLive :
    (found : Option ProposalRow) (expected : Option String) (moment : ℕ) {r : ProposalRow}
    → check found expected moment ≡ ok r
    → (row : ProposalRow) × (found ≡ some row) × IsLive expected moment row
unfolding check
check-IsLive none expected moment h = absurd (ground arith)
check-IsLive (some row) expected moment {r} h =
    (row, refl, check_row-IsLive row r expected moment h)

abbrev pub spent : ℕ → ProposalRow → ProposalRow
spent moment row = record row { state = consumed; consumed_at = some moment }

-- The callback of the transaction ran on the updated proposals, and what it left was committed.
pub record IsCalled (k : String → Exec (Unit {0})) (digest : String) (moment : ℕ)
    (before after : Db) : Type 0 where
  pub enter : World
  pub leave : World
  pub called : k digest enter ≡ (ok tt, leave)
  pub entered : enter.db ≡ record before { proposals = consume_rows digest moment before.proposals }
  pub committed : after ≡ leave.db

-- What a consumption does to the row of its token.
pub record IsConsumption (env : Env) (token : String) (expected : Option String)
    (k : String → Exec (Unit {0})) (before after : Db) (f : FrozenProposal) : Type 0 where
  pub moment : ℕ
  pub row : ProposalRow
  pub found : proposal_by_token before (token_digest env token) ≡ some row
  pub live : IsLive expected moment row
  pub left : proposal_by_token after (token_digest env token) ≡ some (spent moment row)
  pub returned : row_to_proposal env (spent moment row) ≡ ok f
  pub callback : IsCalled k (token_digest env token) moment before after

module _ (env : Env) (token : String) (expected : Option String) (k : String → Exec (Unit {0}))
    (keeps : (d : String) → Within KeepsProposals (k d)) where
  abbrev digest : String
  digest = token_digest env token

  -- The rows that the update leaves, when the row of the token is live
  spent-found :
      (rows : List ProposalRow) (moment : ℕ) {row : ProposalRow}
      → find (λ r. r.token_digest == digest) rows ≡ some row
      → IsLive expected moment row
      → find (λ r. r.token_digest == digest) (consume_rows digest moment rows)
        ≡ some (spent moment row)
  unfolding consume_row
  spent-found rows moment {row} h l =
      let hit : row.token_digest == digest ≡ true =
        find_sound (λ r. r.token_digest == digest) rows row h in
      let done : consume_row digest moment row ≡ spent moment row =
        rw (hit, l.state, l.early) refl in
      rw (sym done) (find-consume_rows digest moment rows h)

  finish-left :
      (w : World) {f : FrozenProposal} {w' : World}
      → (k digest >>= λ _. gets (λ db. proposal_by_token db digest) >>= λ final.
            lift (consumed_proposal env final))
          w
        ≡ (ok f, w')
      → (w'.db.proposals ≡ w.db.proposals)
        × (consumed_proposal env (proposal_by_token w'.db digest) ≡ ok f)
        × (v : World) × (k digest w ≡ (ok tt, v))
        × (w'.db ≡ v.db)
  finish-left w {f} {w'} h = bind-ok (k digest) _ w h λ _ w1 p h1.
      bind-ok (gets (λ db. proposal_by_token db digest)) _ w1 h1 λ final w2 q h2.
        let (r, same2) = lift-ok (consumed_proposal env final) w2 h2 in
        let same : w' ≡ w1 = same2 ∙ sym (ap (λ x. x.1) q) in
        let found : ok (proposal_by_token w1.db digest) ≡ ok final = ap (λ x. x.0) q in
        (
          ap (λ v. v.db.proposals) same ∙ after-ok KeepsProposals (k digest) w (keeps digest) p,
          subst (λ v. consumed_proposal env (proposal_by_token v.db digest) ≡ ok f) (sym same)
              (subst (λ o. consumed_proposal env o ≡ ok f) (sym (ok-injective found)) r),
          w1,
          p,
          ap (λ v. v.db) same,
        )

  -- The transaction from the update on
  consume_checked-left :
      (moment : ℕ) (w : World) {row : ProposalRow} {f : FrozenProposal} {w' : World}
      → proposal_by_token w.db digest ≡ some row
      → IsLive expected moment row
      → consume_checked env digest expected k moment w ≡ (ok f, w')
      → (proposal_by_token w'.db digest ≡ some (spent moment row))
        × (row_to_proposal env (spent moment row) ≡ ok f)
        × IsCalled k digest moment w.db w'.db
  unfolding consume_checked proposal_by_token consumed_proposal
  consume_checked-left moment w {row} {f} {w'} found live h =
      bind-ok (gets (λ db. consumable digest moment db.proposals)) _ w h λ applied w1 p h1.
        bind-ok (sqlite env) _ w1 h1 λ _ w2 q h2.
          bind-ok (modify (λ db. record db { proposals = consume_rows digest moment db.proposals }))
            _ w2 h2
            λ _ w3 r h3.
              let db2 : w2.db ≡ w.db =
                after-ok SameDb (sqlite env) w1 (sqlite-SameDb env) q ∙ sym (ap (λ x. x.1.db) p) in
              let db3 : w3.db
                  ≡ record w.db { proposals = consume_rows digest moment w.db.proposals } =
                sym (ap (λ x. x.1.db) r)
                ∙ ap {A = Db} {B = Db}
                    (λ db. record db { proposals = consume_rows digest moment db.proposals }) db2 in
              let rows : w3.db.proposals ≡ consume_rows digest moment w.db.proposals =
                ap (λ db. db.proposals) db3 in
              let hit : applied ≡ true =
                sym (ok-injective (ap (λ x. x.0) p))
                ∙ find-consumable digest moment w.db.proposals found live.state live.early in
              elim (if-ok applied _ _ w3 h3) [
                | inl (_, go) ↦
                    let (kept, is, v, called, committed) = finish-left w3 go in
                    let left : proposal_by_token w'.db digest ≡ some (spent moment row) =
                      ap (find (λ r. r.token_digest == digest)) (kept ∙ rows)
                      ∙ spent-found w.db.proposals moment found live in
                    (
                      left,
                      subst (λ o. consumed_proposal env o ≡ ok f) left is,
                      record {
                        enter = w3;
                        leave = v;
                        called = called;
                        entered = db3;
                        committed = committed;
                      },
                    )
                | inr (miss, _) ↦ absurd (ground arith)
              ]

  -- A consumption found its token's row active, unexpired and of the expected digest, and left it
  -- consumed; its callback returned, on the updated table, and what it wrote was committed too. The
  -- callback must leave the proposals alone.
  pub consume-IsConsumption :
      (w : World) {f : FrozenProposal} {w' : World}
      → consume env token expected k w ≡ (ok f, w')
      → IsConsumption env token expected k (begun env w).db w'.db f
  unfolding consume
  consume-IsConsumption w {f} {w'} h =
      let (w9, go, committed) = transaction-done env _ w h in
      bind-ok (now env) _ (begun env w) go λ moment w1 p h1.
        bind-ok (gets (λ db. proposal_by_token db digest)) _ w1 h1 λ found w2 q h2.
          bind-ok (lift (check found expected moment)) _ w2 h2 λ _ w3 r h3.
            let (row, is, live) = check-IsLive found expected moment (lift-ok _ w2 r).0 in
            let db1 : w1.db ≡ (begun env w).db =
              after-ok SameDb (now env) (begun env w) (now-SameDb env) p in
            let db3 : w3.db ≡ (begun env w).db =
              ap (λ v. v.db) (lift-ok (check found expected moment) w2 r).1
              ∙ sym (ap (λ x. x.1.db) q)
              ∙ db1 in
            let at_start : proposal_by_token (begun env w).db digest ≡ some row =
              ap (λ db. proposal_by_token db digest) (sym db1)
              ∙ ok-injective (ap (λ x. x.0) q)
              ∙ is in
            let (left, returned, callback) =
              consume_checked-left moment w3 (ap (λ db. proposal_by_token db digest) db3 ∙ at_start)
                live h3 in
            record {
              moment = moment;
              row = row;
              found = at_start;
              live = live;
              left = ap (λ db. proposal_by_token db digest) committed ∙ left;
              returned = returned;
              callback = record {
                enter = callback.enter;
                leave = callback.leave;
                called = callback.called;
                entered =
                    callback.entered
                    ∙ ap {A = Db} {B = Db}
                        (λ db. record db { proposals = consume_rows digest moment db.proposals })
                        db3;
                committed = committed ∙ callback.committed;
              };
            }

some-injective : {A : Type 0} {a b : A} → some a ≡ some b → a ≡ b
some-injective h = ground arith

-- No token is consumed twice: after a consumption, one that finds the token's row as the first left
-- it raises. The callbacks must leave the proposals alone.
pub consume-once :
    (env : Env) (token : String) (e1 e2 : Option String) (k1 k2 : String → Exec (Unit {0}))
    → ((d : String) → Within KeepsProposals (k1 d))
    → ((d : String) → Within KeepsProposals (k2 d))
    → (w w2 : World) {f : FrozenProposal} {w' : World} → consume env token e1 k1 w ≡ (ok f, w')
    → proposal_by_token (begun env w2).db (token_digest env token)
      ≡ proposal_by_token w'.db (token_digest env token)
    → (f2 : FrozenProposal) → (consume env token e2 k2 w2).0 ≢ ok f2
consume-once env token e1 e2 k1 k2 keeps1 keeps2 w w2 h same f2 again =
    let one = consume-IsConsumption env token e1 k1 keeps1 w h in
    let two =
      consume-IsConsumption env token e2 k2 keeps2 w2
        (ap (λ r. (r, (consume env token e2 k2 w2).1)) again) in
    let row : two.row ≡ spent one.moment one.row =
      some-injective (sym two.found ∙ same ∙ one.left) in
    let live : is_active (spent one.moment one.row).state ≡ true =
      subst (λ r. is_active r.state ≡ true) row two.live.state in
    absurd (ground arith)
