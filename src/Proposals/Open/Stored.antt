-- ===== src/Proposals/Open/Stored.antt =====
-- proposals.py: what `open_proposal` has written when it returns.
use ops_guard.Prelude.{
  ℕ, ◌+◌, String, false, Option, none, some, List, [], ◌∷◌, ◌++◌, ◌≡◌, refl, sym, ◌∙◌, ap, subst,
  arith, eqb, inl, inr,
}
use mathlib.Core.List.{append-nil}
use ops_guard.Json.{Json}
use ops_guard.Errors.{Error, Result, ok, err}
use ops_guard.Store.{Db, ProposalRow, BindingRow, AuditEvent, EventType}
use ops_guard.Env.{Env}
use ops_guard.Invocation.{Invocation, canonical_bytes}
use ops_guard.World.{World, lift, now, new_uuid, tick, transaction, sqlite, ◌>>=◌}
use ops_guard.World.Within.{Drifts, here}
use ops_guard.World.Steps.{
  bind-ok, bind-err, ok-ne-err, lift-ok, if-ok, after-ok, after-err, ok-injective, SameDb,
  now-SameDb,
}
use ops_guard.Proposals.Open.Unended.{store_proposal-Unended}
use ops_guard.World.Atomic.{begun, begun-Drifts, transaction-done, transaction-undo}
use ops_guard.Audit.{append_on}
use ops_guard.Audit.{redact_snapshot}
use ops_guard.Audit.Order.{IsEvent, IsEvent-events, append_on-IsEvent}
use ops_guard.ExecutionBinding.{Template, finalize, binding_digest}
use package.ops_guard.Proposals.Open.{
  IssuedProposal, proposal_clashes, insert_proposal, insert_binding, bind, proposal_entry, new_row,
  store_proposal, open_proposal,
}

module _ (env : Env) where
  -- The binding rows that a template adds for a proposal
  pub data Binds : Option Template → String → String → List BindingRow → Type 0 where
    unbound : {id digest : String} → Binds none id digest []
    bound :
        {t : Template} {id digest stored : String}
        → binding_digest env (finalize t id digest) ≡ ok stored
        → Binds (some t) id digest (
            record { proposal_id = id; binding_digest = stored; document = finalize t id digest }
            ∷ [])

  -- A row, its binding and its event are all that was added.
  pub record IsStored (row : ProposalRow) (template : Option Template) (refs : List String)
      (snapshot : Option Json) (before after : Db) : Type 0 where
    pub first : proposal_clashes env row.proposal_id row.token_digest before.proposals ≡ false
    pub proposals : after.proposals ≡ before.proposals ++ row ∷ []
    pub rows : List BindingRow
    pub binds : Binds template row.proposal_id row.invocation_digest rows
    pub bindings : after.bindings ≡ before.bindings ++ rows
    pub approvals : after.approvals ≡ before.approvals
    pub event : AuditEvent
    pub events : after.events ≡ before.events ++ event ∷ []
    pub is_event :
        IsEvent env
          (proposal_entry env row.proposal_id row.invocation_digest row.expires_at refs snapshot)
          before
          event
    pub event_type : event.event_type ≡ EventType.proposal
    pub correlated : event.correlation_id ≡ some row.proposal_id
    pub cites : event.evidence_refs ≡ refs
    pub advised : redact_snapshot env snapshot ≡ ok event.judge_snapshot

  insert_proposal-ok :
      (row : ProposalRow) (w : World) {u : Unit {0}} {w' : World}
      → insert_proposal env row w ≡ (ok u, w')
      → (proposal_clashes env row.proposal_id row.token_digest w.db.proposals ≡ false)
        × (w'.db ≡ record w.db { proposals = w.db.proposals ++ row ∷ [] })
  unfolding insert_proposal sqlite ◌>>=◌
  insert_proposal-ok row w h = ground arith

  insert_binding-ok :
      (row : BindingRow) (w : World) {u : Unit {0}} {w' : World}
      → insert_binding env row w ≡ (ok u, w')
      → w'.db ≡ record w.db { bindings = w.db.bindings ++ row ∷ [] }
  unfolding insert_binding sqlite ◌>>=◌
  insert_binding-ok row w h = ground arith

  bind-Binds :
      (template : Option Template) (id digest : String) (w : World) {u : Unit {0}} {w' : World}
      → bind env template id digest w ≡ (ok u, w')
      → (rows : List BindingRow) × Binds template id digest rows
        × (w'.db ≡ record w.db { bindings = w.db.bindings ++ rows })
  unfolding bind
  bind-Binds none id digest w h = (
    [],
    unbound,
    ap (λ x. x.1.db) (sym h)
        ∙ ap {A = List BindingRow} {B = Db} (λ rows. record w.db { bindings = rows })
            (sym (append-nil w.db.bindings)),
  )
  bind-Binds (some t) id digest w {w'} h =
      bind-ok (lift (binding_digest env (finalize t id digest))) _ w h λ stored w1 p h1.
        let (is, same) = lift-ok (binding_digest env (finalize t id digest)) w p in
        let row : BindingRow = record {
          proposal_id = id;
          binding_digest = stored;
          document = finalize t id digest;
        } in
        (
          row ∷ [],
          bound is,
          insert_binding-ok row w1 h1
              ∙ ap {A = World} {B = Db} (λ v. record v.db { bindings = v.db.bindings ++ row ∷ [] })
                  same,
        )

  store_proposal-IsStored :
      (row : ProposalRow) (template : Option Template) (refs : List String) (snapshot : Option Json)
      (w : World) {u : Unit {0}} {w' : World}
      → store_proposal env row template refs snapshot w ≡ (ok u, w')
      → IsStored row template refs snapshot w.db w'.db
  unfolding store_proposal
  store_proposal-IsStored row template refs snapshot w {w'} h =
      bind-ok (insert_proposal env row) _ w h λ _ w1 p h1.
        bind-ok (bind env template row.proposal_id row.invocation_digest) _ w1 h1 λ _ w2 q h2.
          bind-ok
            (append_on env (
              proposal_entry env row.proposal_id row.invocation_digest row.expires_at refs
                snapshot))
            _ w2 h2
            λ e w3 r h3.
              let (first, inserted) = insert_proposal-ok row w p in
              let (rows, binds, added) =
                bind-Binds template row.proposal_id row.invocation_digest w1 q in
              let (logged, is) = append_on-IsEvent env _ w2 r in
              let end : w'.db ≡ w3.db = sym (ap (λ x. x.1.db) h3) in
              record {
                first = first;
                proposals = ground (arith, end, logged, added, inserted);
                rows = rows;
                binds = binds;
                bindings = ground (arith, end, logged, added, inserted);
                approvals = ground (arith, end, logged, added, inserted);
                event = e;
                events = ground (arith, end, logged, added, inserted);
                is_event = IsEvent-events env _ w2.db w.db e (ground (arith, added, inserted)) is;
                event_type = is.event_type;
                correlated = is.correlation_id;
                cites = is.evidence_refs;
                advised = is.judge_snapshot;
              }

  -- What comes before the transaction leaves the database alone.
  opening_db :
      {B : Type 0} {r : Result B} {c : B} {t minted : ℕ} {id : String} (w w1 w2 w3 w4 : World)
      → now env w ≡ (ok t, w1)
      → lift r w1 ≡ (ok c, w2)
      → new_uuid env w2 ≡ (ok id, w3)
      → tick w3 ≡ (ok minted, w4)
      → w4.db ≡ w.db
  unfolding new_uuid
  opening_db w w1 w2 w3 w4 p q r s =
      sym (ap (λ x. x.1.db) s)
      ∙ sym (ap (λ x. x.1.db) r)
      ∙ sym (ap (λ x. x.1.db) q)
      ∙ after-ok SameDb (now env) w (now-SameDb env) p

  -- The proposal that a call opened
  pub record IsOpened (i : Invocation) (ttl : ℕ) (refs : List String) (snapshot : Option Json)
      (template : Option Template) (issued : IssuedProposal) (w w' : World) : Type 0 where
    pub lasting : eqb ttl 0 ≡ false
    pub frozen : String
    pub canonical : canonical_bytes env i ≡ ok frozen
    pub digest : issued.invocation_digest ≡ env.sha256 frozen
    pub created : ℕ
    pub expires : issued.expires_at ≡ created + ttl
    pub before : Db
    pub drift : Drifts env w.db before
    pub stored :
        IsStored
          (new_row env issued.proposal_id frozen issued.invocation_digest issued.token created
            issued.expires_at)
          template
          refs
          snapshot
          before
          w'.db

  -- `open_proposal` returns only for a positive ttl and an invocation with canonical bytes. Then one
  -- transaction has added, to what the other processes had committed: the proposal's row, active,
  -- with those bytes, their digest, the token's keyed digest and the expiry; the binding that the
  -- template becomes, if there is one; and the proposal event. Nothing else has changed, and the
  -- proposal's id and the token's digest are new.
  pub open_proposal-IsOpened :
      (i : Invocation) (ttl : ℕ) (refs : List String) (snapshot : Option Json)
      (template : Option Template) (w : World) {issued : IssuedProposal} {w' : World}
      → open_proposal env i ttl refs snapshot template w ≡ (ok issued, w')
      → IsOpened i ttl refs snapshot template issued w w'
  unfolding open_proposal
  open_proposal-IsOpened i ttl refs snapshot template w {issued} {w'} h =
      elim (if-ok (eqb ttl 0) _ _ w h) [
        | inl (_, bad) ↦ absurd (ground arith)
        | inr (lasting, go) ↦ bind-ok (now env) _ w go λ created w1 p h1.
            bind-ok (lift (canonical_bytes env i)) _ w1 h1 λ frozen w2 q h2.
              bind-ok (new_uuid env) _ w2 h2 λ id w3 r h3. bind-ok tick _ w3 h3 λ minted w4 s h4.
                let row =
                  new_row env id frozen (env.sha256 frozen) (env.token_urlsafe minted) created
                    (created + ttl) in
                bind-ok (transaction env (store_proposal env row template refs snapshot)) _ w4 h4
                  λ _ w5 t h5.
                    let (v, body, committed) = transaction-done env _ w4 t in
                    let is = ok-injective (ap (λ x. x.0) h5) in
                    let end : w'.db ≡ v.db = sym (ap (λ x. x.1.db) h5) ∙ committed in
                    subst (λ x. IsOpened i ttl refs snapshot template x w w') is
                      (record {
                        lasting = lasting;
                        frozen = frozen;
                        canonical = (lift-ok (canonical_bytes env i) w1 q).0;
                        digest = refl;
                        created = created;
                        expires = refl;
                        before = (begun env w4).db;
                        drift =
                            subst (λ db. Drifts env db (begun env w4).db)
                              (opening_db w w1 w2 w3 w4 p q r s) (begun-Drifts env w4);
                        stored =
                            subst (IsStored row template refs snapshot (begun env w4).db) (sym end)
                              (store_proposal-IsStored row template refs snapshot (begun env w4)
                                body);
                      })
      ]

  Drifts-same : {a b : Db} → b ≡ a → Drifts env a b
  Drifts-same {a} h = subst (Drifts env a) (sym h) here

  -- An `open_proposal` that raises has written nothing.
  pub open_proposal-undo :
      (i : Invocation) (ttl : ℕ) (refs : List String) (snapshot : Option Json)
      (template : Option Template) (w : World) {e : Error} {w' : World}
      → open_proposal env i ttl refs snapshot template w ≡ (err e, w')
      → Drifts env w.db w'.db
  unfolding open_proposal new_uuid
  open_proposal-undo i ttl refs snapshot template w {e} {w'} h = elim (if-ok (eqb ttl 0) _ _ w h) [
    | inl (_, bad) ↦ subst (λ v. Drifts env w.db v.db) (ap (λ x. x.1) bad) here
    | inr (_, go) ↦
        bind-err (now env) _ w go
          (λ p. (Drifts-same (after-err SameDb (now env) w (now-SameDb env) p)))
          λ created w1 p h1.
            bind-err (lift (canonical_bytes env i)) _ w1 h1
              (λ q.
                Drifts-same
                  (sym (ap (λ x. x.1.db) q) ∙ after-ok SameDb (now env) w (now-SameDb env) p))
              λ frozen w2 q h2.
                bind-err (new_uuid env) _ w2 h2 (λ r. absurd (ok-ne-err r))
                  λ id w3 r h3.
                    bind-err tick _ w3 h3 (λ s. absurd (ok-ne-err s))
                      λ minted w4 s h4.
                        let row =
                          new_row env id frozen (env.sha256 frozen) (env.token_urlsafe minted)
                            created (created + ttl) in
                        bind-err (transaction env (store_proposal env row template refs snapshot)) _
                          w4 h4
                          (λ t.
                            subst (λ db. Drifts env db w'.db) (opening_db w w1 w2 w3 w4 p q r s)
                              (transaction-undo env (store_proposal env row template refs snapshot)
                                w4
                                ((store_proposal-Unended env row template refs snapshot).at
                                  (begun env w4))
                                t))
                          (λ _ w5 t h5. absurd (ok-ne-err h5))
  ]
