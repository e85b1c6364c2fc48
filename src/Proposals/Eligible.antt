-- ===== src/Proposals/Eligible.antt =====
-- proposals.py: what `resolve` and `fetch_by_id_on` have established when they return.
use ops_guard.Prelude.{
  ℕ, suc, String, true, Option, none, ◌==◌, ◌≡◌, refl, sym, ◌∙◌, ap, subst, arith, some, eq_iff,
  inl, inr,
}
use ops_guard.Errors.{ok, Result-cases}
use ops_guard.Store.{ProposalRow, BindingRow, proposal_by_token, proposal_by_id, binding_by_id}
use ops_guard.Env.{Env, Moment, naive, aware}
use ops_guard.Invocation.{canonical_bytes, parse_frozen_invocation}
use ops_guard.World.{World, gets, now, read}
use ops_guard.World.Steps.{bind-ok, lift-ok, if-ok, ok-injective}
use ops_guard.World.Atomic.{looked, read-done}
use ops_guard.Proposals.Once.{IsLive, check-IsLive}
use package.ops_guard.Proposals.{
  FrozenProposal, token_digest, check, check_row, row_to_proposal, eligible, resolve_on, resolve,
  fetch_by_id_on, fetch_binding_on,
}

-- The world after a reading of the clock
abbrev pub ticked : World → World
ticked w = record w { ticks = suc w.ticks }

module _ (env : Env) where
  -- The proposal is the row's, and its canonical bytes have the row's digest.
  pub record IsThawed (row : ProposalRow) (f : FrozenProposal) : Type 0 where
    pub parsed : parse_frozen_invocation env row.invocation_bytes ≡ ok f.invocation
    pub form : String
    pub canonical : canonical_bytes env f.invocation ≡ ok form
    pub intact : env.sha256 form ≡ row.invocation_digest
    pub proposal_id : f.proposal_id ≡ row.proposal_id
    pub invocation_digest : f.invocation_digest ≡ row.invocation_digest
    pub token_digest : f.token_digest ≡ row.token_digest
    pub expires_at : f.expires_at ≡ row.expires_at

  -- The row was there, was live when the clock was read, and is thawed.
  pub record IsEligible (found : Option ProposalRow) (expected : Option String) (clock : ℕ)
      (f : FrozenProposal) : Type 0 where
    pub moment : ℕ
    pub read_at : env.moment clock ≡ aware moment
    pub row : ProposalRow
    pub stored : found ≡ some row
    pub live : IsLive expected moment row
    pub thawed : IsThawed row f

  row_to_proposal-IsThawed :
      (row : ProposalRow) {f : FrozenProposal} → row_to_proposal env row ≡ ok f → IsThawed row f
  unfolding row_to_proposal
  row_to_proposal-IsThawed row {f} h =
      elim (Result-cases (parse_frozen_invocation env row.invocation_bytes)) [
        | inr (e, p) ↦ absurd (ground arith)
        | inl (i, p) ↦ elim (Result-cases (canonical_bytes env i)) [
          | inr (e, q) ↦ absurd (ground arith)
          | inl (form, q) ↦
              let same : env.sha256 form == row.invocation_digest ≡ true = ground arith in
              let is : i ≡ f.invocation = ground arith in
              record {
                parsed = p ∙ ap ok is;
                form = form;
                canonical = ap (canonical_bytes env) (sym is) ∙ q;
                intact = (eq_iff _ _).0 same;
                proposal_id = ground arith;
                invocation_digest = ground arith;
                token_digest = ground arith;
                expires_at = ground arith;
              }
        ]
      ]

  pub now-ok :
      (w : World) {t : ℕ} {w' : World}
      → now env w ≡ (ok t, w')
      → (env.moment w.ticks ≡ aware t) × (w' ≡ ticked w)
  unfolding now
  now-ok w {t} {w'} h = by_moment (env.moment w.ticks) refl
    where
      by_moment :
          (m : Moment) → env.moment w.ticks ≡ m → (env.moment w.ticks ≡ aware t) × (w' ≡ ticked w)
      by_moment (naive s) p = absurd (ground arith)
      by_moment (aware s) p = ground arith

  check-found :
      (found : Option ProposalRow) (expected : Option String) (moment : ℕ) {r : ProposalRow}
      → check found expected moment ≡ ok r
      → found ≡ some r
  unfolding check check_row
  check-found none expected moment h = absurd (ground arith)
  check-found (some row) expected moment h = ground arith

  eligible-IsEligible :
      (found : Option ProposalRow) (expected : Option String) (moment clock : ℕ)
      {f : FrozenProposal}
      → env.moment clock ≡ aware moment
      → eligible env found expected moment ≡ ok f
      → IsEligible found expected clock f
  unfolding eligible
  eligible-IsEligible found expected moment clock at h =
      elim (Result-cases (check found expected moment)) [
        | inr (e, p) ↦ absurd (ground arith)
        | inl (r, p) ↦
            let (row, q, live) = check-IsLive found expected moment p in
            let same : row ≡ r = ground (arith, check-found found expected moment p) in
            record {
              moment = moment;
              read_at = at;
              row = r;
              stored = check-found found expected moment p;
              live = subst (IsLive expected moment) same live;
              thawed = row_to_proposal-IsThawed r (ground arith);
            }
      ]

  -- `resolve` looks at what it caught up with, and changes nothing.
  pub resolve-IsEligible :
      (token : String) (expected : Option String) (w : World) {f : FrozenProposal} {w' : World}
      → resolve env token expected w ≡ (ok f, w')
      → IsEligible
          (proposal_by_token (looked env w).db (token_digest env token))
          expected
          (looked env w).ticks
          f
        × (w' ≡ ticked (looked env w))
  unfolding resolve resolve_on
  resolve-IsEligible token expected w {f} h =
      let u = looked env w in
      bind-ok (gets (λ db. proposal_by_token db (token_digest env token))) _ u (read-done env _ w h)
        λ found w1 p h1. bind-ok (now env) _ w1 h1 λ moment w2 q h2.
          let (is, same) = lift-ok (eligible env found expected moment) w2 h2 in
          let start : w1 ≡ u = sym (ap (λ x. x.1) p) in
          let (at, next) = now-ok w1 q in
          (
            subst (λ o. IsEligible o expected u.ticks f) (sym (ok-injective (ap (λ x. x.0) p)))
                (eligible-IsEligible found expected moment u.ticks
                  (ap (λ v. env.moment v.ticks) (sym start) ∙ at) is),
            same ∙ next ∙ ap ticked start,
          )

  -- So does `fetch_by_id_on`, in the transaction that it is called in.
  pub fetch_by_id_on-IsEligible :
      (id : String) (w : World) {f : FrozenProposal} {w' : World}
      → fetch_by_id_on env id w ≡ (ok f, w')
      → IsEligible (proposal_by_id w.db id) none w.ticks f × (w' ≡ ticked w)
  unfolding fetch_by_id_on
  fetch_by_id_on-IsEligible id w {f} h = elim (if-ok (id == "") _ _ w h) [
    | inl (_, bad) ↦ absurd (ground arith)
    | inr (_, go) ↦ bind-ok (gets (λ db. proposal_by_id db id)) _ w go λ found w1 p h1.
        bind-ok (now env) _ w1 h1 λ moment w2 q h2.
          let (is, same) = lift-ok (eligible env found none moment) w2 h2 in
          let start : w1 ≡ w = sym (ap (λ x. x.1) p) in
          let (at, next) = now-ok w1 q in
          (
            subst (λ o. IsEligible o none w.ticks f) (sym (ok-injective (ap (λ x. x.0) p)))
                (eligible-IsEligible found none moment w.ticks
                  (ap (λ v. env.moment v.ticks) (sym start) ∙ at) is),
            same ∙ next ∙ ap ticked start,
          )
  ]

  -- The stored binding of a proposal, read on a connection of its own
  pub read_binding-stored :
      (id : String) (w : World) {found : Option BindingRow} {w' : World}
      → read env (fetch_binding_on env id) w ≡ (ok found, w')
      → (binding_by_id (looked env w).db id ≡ found) × (w' ≡ looked env w)
  unfolding fetch_binding_on
  read_binding-stored id w h =
      let got = read-done env _ w h in (ok-injective (ap (λ x. x.0) got), sym (ap (λ x. x.1) got))
