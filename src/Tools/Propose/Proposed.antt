-- ===== src/Tools/Propose/Proposed.antt =====
-- proposal_tool.py: what `propose_fix` has established when it returns, and left when it raises.
use ops_guard.Prelude.{
  String, true, some, [], ◌∷◌, ◌⊕◌, ◌==◌, ◌&&◌, ◌≡◌, sym, ◌∙◌, ap, subst, arith, eq_iff, inl, inr,
  Bool-cases,
}
use ops_guard.Json.{Json, arr}
use ops_guard.Errors.{Error, ok, err, convert-ok, chain-ok, check-ok, ok-injective}
use ops_guard.Env.{Env, canonicalize_json}
use ops_guard.World.{World, lift}
use ops_guard.World.Within.{Drifts, here}
use ops_guard.World.Steps.{bind-ok, bind-err, lift-ok}
use ops_guard.Invocation.{Invocation, canonical_bytes}
use ops_guard.Authorization.{precondition_items}
use ops_guard.Runbooks.{Citation, CitedPassage, resolve_citation}
use ops_guard.Judge.{evaluate_risk, judge_state}
use ops_guard.Proposals.Open.{IssuedProposal, open_proposal}
use ops_guard.Proposals.Open.Stored.{IsOpened, open_proposal-IsOpened, open_proposal-undo}
use package.ops_guard.Tools.Convert.{converted-ok, converted-err}
use package.ops_guard.Tools.{as_tool_error, is_citation_error, is_invalid_value}
use package.ops_guard.Tools.Propose.{
  ProposeConfig, citation_ref, canonical_equal, equals_evidence, bind_execution, Prepared, prepare,
  propose_fix,
}
use ops_guard.Errors.{is_proposal_error}

-- The invocation is the one that the evidence describes.
pub record EqualsEvidence (env : Env) (i : Invocation) (p : CitedPassage) : Type 0 where
  pub hash : i.runbook_revision_hash ≡ p.citation.content_hash
  pub action : i.action ≡ p.operation_action
  pub target : i.target ≡ p.operation_target
  pub form : String
  pub proposed : canonicalize_json env (arr i.preconditions) ≡ ok form
  pub evidenced : canonicalize_json env (arr (precondition_items p.preconditions)) ≡ ok form

canonical_equal-true :
    (env : Env) (a b : Json)
    → canonical_equal env a b ≡ ok true
    → (t : String) × (canonicalize_json env a ≡ ok t) × (canonicalize_json env b ≡ ok t)
unfolding canonical_equal
canonical_equal-true env a b h = chain-ok (canonicalize_json env a) _ h λ s p h1.
    chain-ok (canonicalize_json env b) _ h1
      λ t q h2. (s, p, q ∙ ap ok (sym ((eq_iff s t).0 (ok-injective h2))))

equals_evidence-EqualsEvidence :
    (env : Env) (i : Invocation) (p : CitedPassage)
    → equals_evidence env i p ≡ ok true
    → EqualsEvidence env i p
unfolding equals_evidence
equals_evidence-EqualsEvidence env i p h =
    elim (Bool-cases (
      i.runbook_revision_hash == p.citation.content_hash
      && (i.action == p.operation_action && i.target == p.operation_target))) [
        | inr a ↦ absurd (ground arith)
        | inl a ↦
            let (t, b, c) =
              canonical_equal-true env (arr i.preconditions)
                (arr (precondition_items p.preconditions)) (ground arith) in
            let (x, y, z) : (i.runbook_revision_hash == p.citation.content_hash ≡ true)
                × (i.action == p.operation_action ≡ true)
                × (i.target == p.operation_target ≡ true) =
              ground arith in
            record {
              hash = (eq_iff _ _).0 x;
              action = (eq_iff _ _).0 y;
              target = (eq_iff _ _).0 z;
              form = t;
              proposed = b;
              evidenced = c;
            }
      ]

-- What was prepared: the evidence, the advisory and the binding
pub record IsPrepared (env : Env) (config : ProposeConfig) (i : Invocation) (c : Citation)
    (q : Prepared) : Type 0 where
  pub cited : CitedPassage
  pub found : resolve_citation config.library c ≡ ok cited
  pub equal : EqualsEvidence env i cited
  pub advised : evaluate_risk config.judge (judge_state i cited) ≡ ok q.snapshot
  pub bound : bind_execution env config.execution_catalog c i ≡ ok q.template

prepare-IsPrepared :
    (env : Env) (config : ProposeConfig) (i : Invocation) (c : Citation) {q : Prepared}
    → prepare env config i c ≡ ok q
    → IsPrepared env config i c q
unfolding prepare
prepare-IsPrepared env config i c h =
    chain-ok
      (as_tool_error is_citation_error "invalid_citation" (resolve_citation config.library c)) _ h
      λ cited p h1. chain-ok (equals_evidence env i cited) _ h1 λ equal r h2.
        check-ok equal _ _ h2 λ is h3.
          chain-ok (as_tool_error is_invalid_value "invalid_invocation" (canonical_bytes env i)) _
            h3
            λ _ s h4.
              chain-ok (evaluate_risk config.judge (judge_state i cited)) _ h4 λ snapshot t h5.
                chain-ok
                  (as_tool_error is_proposal_error "execution_binding_unresolved"
                    (bind_execution env config.execution_catalog c i))
                  _ h5
                  λ template u h6. subst (IsPrepared env config i c) (ok-injective h6) (record {
                    cited = cited;
                    found = convert-ok _ _ p;
                    equal = equals_evidence-EqualsEvidence env i cited (r ∙ ap ok is);
                    advised = t;
                    bound = convert-ok _ _ u;
                  })

-- The proposal that the tool issued
pub record IsProposed (env : Env) (config : ProposeConfig) (i : Invocation) (c : Citation)
    (w : World) (issued : IssuedProposal) (w' : World) : Type 0 where
  pub prepared : Prepared
  pub is_prepared : IsPrepared env config i c prepared
  pub opened :
      IsOpened env i config.ttl
        ((c.runbook_id ⊕ "@" ⊕ c.revision) ∷ c.content_hash ∷ c.locator ∷ [])
        (some prepared.snapshot)
        prepared.template
        issued
        w
        w'

-- `propose_fix` returns a proposal only when the citation resolves in the library, the invocation
-- has the content hash, the action, the target and the canonical preconditions of that evidence,
-- the judge returned an advisory, and the catalog, where one is configured, binds the citation and
-- the invocation. Then the stored proposal is of this invocation, with the configured lifetime, that
-- binding, the citation as its evidence and the advisory.
pub propose_fix-IsProposed :
    (env : Env) (config : ProposeConfig) (i : Invocation) (c : Citation) (w : World)
    {issued : IssuedProposal} {w' : World}
    → propose_fix env config i c w ≡ (ok issued, w')
    → IsProposed env config i c w issued w'
unfolding propose_fix
propose_fix-IsProposed env config i c w {issued} {w'} h =
    bind-ok (lift (prepare env config i c)) _ w h λ p w1 a h1.
      let (b, same) = lift-ok (prepare env config i c) w a in
      let opening =
        converted-ok _
          (open_proposal env i config.ttl (citation_ref c) (some p.snapshot) p.template) w1 h1 in
      record {
        prepared = p;
        is_prepared = prepare-IsPrepared env config i c b;
        opened =
            open_proposal-IsOpened env i config.ttl (citation_ref c) (some p.snapshot) p.template w
              (subst
                (λ v.
                  open_proposal env i config.ttl (citation_ref c) (some p.snapshot) p.template v
                  ≡ (ok issued, w'))
                same opening);
      }

-- A `propose_fix` that raises, for whatever reason, has written nothing.
pub propose_fix-undo :
    (env : Env) (config : ProposeConfig) (i : Invocation) (c : Citation) (w : World) {e : Error}
    {w' : World}
    → propose_fix env config i c w ≡ (err e, w')
    → Drifts env w.db w'.db
unfolding propose_fix
propose_fix-undo env config i c w {e} {w'} h =
    bind-err (lift (prepare env config i c)) _ w h
      (λ p. subst (λ v. Drifts env w.db v.db) (ap (λ x. x.1) p) here)
      λ p w1 a h1.
        let (b, same) = lift-ok (prepare env config i c) w a in
        let (x, raised) =
          converted-err _
            (open_proposal env i config.ttl (citation_ref c) (some p.snapshot) p.template) w1 h1 in
        subst (λ v. Drifts env v.db w'.db) same
          (open_proposal-undo env i config.ttl (citation_ref c) (some p.snapshot) p.template w1
            raised)
